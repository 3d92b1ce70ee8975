-- ===== src/Elastic/Upstream.antt =====
-- The upstream addresses of an ElasticAck: what AppendUpstreamAddr adds is what GetUpstreamAddr
-- finds.
use nrlsmf.Base.{
  ℕ, zero, suc, ◌+◌, ◌-◌, ◌*◌, ◌/◌, ◌%◌, ◌<◌, ◌≤◌, ◌≡◌, ◌≢◌, refl, ap, ◌∙◌, ◌⊎◌, inl, inr, some,
  List, [], ◌∷◌, ◌++◌, arith, ltb, ◌==◌, if◌then◌else◌, Bool-cases, length, length-replicate,
  replicate, get_elem?, bit_and, bit_or,
}
use nrlsmf.Wire.{Kind, Address, Known, address_bytes, Packet, Laws, copy_in, copy_out}
use nrlsmf.Wire.Copy.{copy_in-buffer, copy_in-before}
use nrlsmf.Elastic.{address_type, offset_past_flow}
use nrlsmf.Elastic.Ack.{type_list, write_upstream}
use nrlsmf.Elastic.Flow.{words, bytes_fit, type_small, set_low-here, set_low-other, set_low-buffer}
use nrlsmf.Elastic.RoundTrip.{Described, past_offset, Described-Agree}

pub elem-snoc :
    (us : List Address) (a b : Address) (i : ℕ)
    → get_elem? (us ++ (a ∷ [])) i ≡ some b
    → (get_elem? us i ≡ some b) ⊎ ((i ≡ length us) × (a ≡ b))
elem-snoc [] a b zero e = inr (refl, cc)
elem-snoc [] a b (suc i) e = inl e
elem-snoc (u ∷ us) a b zero e = inl e
elem-snoc (u ∷ us) a b (suc i) e = elim (elem-snoc us a b i e) [
  | inl f ↦ inl f
  | inr f ↦ inr (ap suc f.0, f.1)
]

pub elem-below : (us : List Address) (b : Address) (i : ℕ) → get_elem? us i ≡ some b → i < length us
elem-below [] b i e = cc
elem-below (u ∷ us) b zero e = omega arith
elem-below (u ∷ us) b (suc i) e = omega (arith, elem-below us b i e)

module _ (P : Packet) (laws : Laws P) where
  open P use {State, buffer_length, get_length, set_length, get_uint8, set_uint8}

  -- The message describes a flow and carries the upstream addresses `us` of type `u`.
  pub record Carries (s : State) (dst src : Address) (u : Kind) (us : List Address) : Type 0 where
    pub described : Described P laws s dst src
    pub count : get_uint8 5 s / 16 ≡ length us
    pub list_type : 0 < length us → get_uint8 5 s % 16 ≡ address_type u
    pub used : get_length s ≡ 8 + 8 * words dst.kind + length us * (4 * words u)
    pub placed :
        (i : ℕ) (a : Address)
        → get_elem? us i ≡ some a
        → copy_out P (8 + 8 * words dst.kind + i * (4 * words u)) (address_bytes u) s ≡ a.host

  module _ (s : State) (dst src a : Address) (us : List Address) (known : Known a)
      (c : Carries s dst src a.kind us) (few : length us < 15)
      (room : 8 + 8 * words dst.kind + (length us + 1) * (4 * words a.kind) ≤ buffer_length s) where
    abbrev pub n : ℕ
    n = length us

    abbrev pub t : ℕ
    t = address_type a.kind

    abbrev pub field : ℕ
    field = 4 * words a.kind

    abbrev pub ptr : ℕ
    ptr = 8 + 8 * words dst.kind + n * field

    abbrev pub listed : State
    listed = type_list P n t s

    pub ptr_room : ptr + field ≤ buffer_length s
    ptr_room = omega (arith, room)

    pub fits_field : length a.host ≤ field
    fits_field = omega (arith, known.sized, bytes_fit a.kind)

    pub listed_other : (j : ℕ) → j ≢ 5 → get_uint8 j listed ≡ get_uint8 j s
    unfolding type_list
    listed_other j h = elim (Bool-cases (n == 0)) [
      | inl e ↦ rw (e, type_list) (set_low-other P laws 5 t j s (omega (arith, room)) h)
      | inr e ↦ rw (e, type_list) refl
    ]

    listed_buffer : buffer_length listed ≡ buffer_length s
    unfolding type_list
    listed_buffer = elim (Bool-cases (n == 0)) [
      | inl e ↦ rw (e, type_list) (set_low-buffer P laws 5 t s)
      | inr e ↦ rw (e, type_list) refl
    ]

    pub listed_byte : get_uint8 5 listed ≡ n * 16 + t
    unfolding type_list
    listed_byte = elim (Bool-cases (n == 0)) [
      | inl e ↦
          rw (e, type_list)
            (set_low-here P laws 5 t s (omega (arith, room)) (type_small a.kind)
              ∙ omega (arith, c.count))
      | inr e ↦ rw (e, type_list) (ground (arith, c.count, c.list_type, e))
    ]

    pub listed-Described : Described P laws listed dst src
    listed-Described =
        Described-Agree P laws s listed dst src listed_buffer
          (listed_other 4 (λ e. omega (arith, e)))
          (λ j lo hi. listed_other j (λ e. omega (arith, lo, e))) c.described

    abbrev pub padded : State
    padded =
        if ltb (length a.host) field
        then copy_in P (ptr + length a.host) (replicate (field - length a.host) 0) listed
        else listed

    abbrev pub written : State
    written = copy_in P ptr a.host padded

    padded_before : (j : ℕ) → j < ptr → get_uint8 j padded ≡ get_uint8 j listed
    padded_before j h = elim (Bool-cases (ltb (length a.host) field)) [
      | inl e ↦ rw e (
          copy_in-before P laws (ptr + length a.host) _ listed j
            (omega (
              arith,
              length-replicate {A = ℕ} (field - length a.host) 0,
              listed_buffer,
              ptr_room,
              fits_field,
            ))
            (omega (arith, h)))
      | inr e ↦ rw e refl
    ]

    pub padded_buffer : buffer_length padded ≡ buffer_length s
    padded_buffer = elim (Bool-cases (ltb (length a.host) field)) [
      | inl e ↦ rw e (copy_in-buffer P laws (ptr + length a.host) _ listed ∙ listed_buffer)
      | inr e ↦ rw e listed_buffer
    ]

    pub host_room : ptr + length a.host ≤ buffer_length padded
    host_room = omega (arith, padded_buffer, ptr_room, fits_field)

    pub written_before : (j : ℕ) → j < ptr → get_uint8 j written ≡ get_uint8 j listed
    written_before j h = copy_in-before P laws ptr a.host padded j host_room h ∙ padded_before j h

    abbrev pub counted : State
    counted = set_uint8 5 (bit_or (bit_and (get_uint8 5 written) 15) ((n + 1) * 16 % 256)) written

    pub write_is : write_upstream P n field a.host listed ≡ counted
    unfolding write_upstream
    write_is =
        let e : 4 * offset_past_flow P listed + n * field ≡ ptr =
          omega (arith, past_offset P laws listed dst src listed-Described) in
        rw (e, write_upstream) refl
