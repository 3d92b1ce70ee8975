-- ===== src/Elastic/Flow.antt =====
-- The flow description of a message: what SetDstAddr and SetSrcAddr write.
use nrlsmf.Base.{
  ℕ, ◌+◌, ◌*◌, ◌/◌, ◌%◌, ◌<◌, ◌≤◌, ◌≡◌, ◌≢◌, refl, ap, ◌∙◌, inl, inr, false, some, arith, ltb, ◌==◌,
  if◌then◌else◌, Bool-cases, bit_and, bit_or,
}
use nrlsmf.Wire.{
  Kind, ipv4, ipv6, eth, other, Address, Known, address_bytes, Packet, Laws, copy_out,
}
use nrlsmf.Wire.Nibbles.{low_lem, put_low_lem}
use nrlsmf.Wire.Copy.{set-other, set-here}
use nrlsmf.Elastic.{
  address_type, get_address_field_words, kind_of, set_msg_length, get_address_type, address_at,
  grow, set_low,
}

-- The words that an address of a type takes.
abbrev pub words : Kind → ℕ
words ipv4 = 1
words ipv6 = 4
words eth = 2
words other = 0

pub words_lem : (k : Kind) → get_address_field_words (address_type k) ≡ words k
unfolding get_address_field_words address_type
words_lem ipv4 = refl
words_lem ipv6 = refl
words_lem eth = refl
words_lem other = refl

pub bytes_fit : (k : Kind) → address_bytes k ≤ 4 * words k
bytes_fit ipv4 = omega arith
bytes_fit ipv6 = omega arith
bytes_fit eth = omega arith
bytes_fit other = omega arith

pub type_small : (k : Kind) → address_type k < 16
unfolding address_type
type_small ipv4 = omega arith
type_small ipv6 = omega arith
type_small eth = omega arith
type_small other = omega arith

pub kind_lem : (k : Kind) → 0 < address_bytes k → kind_of (address_type k) ≡ some k
unfolding kind_of address_type
kind_lem ipv4 h = refl
kind_lem ipv6 h = refl
kind_lem eth h = refl
kind_lem other h = absurd (omega (arith, h))

pub type_known : (k : Kind) → 0 < address_bytes k → (address_type k == 0) ≡ false
unfolding address_type
type_known ipv4 h = refl
type_known ipv6 h = refl
type_known eth h = refl
type_known other h = absurd (omega (arith, h))

module _ (P : Packet) (laws : Laws P) where
  open P use {State, buffer_length, get_length, set_length, get_uint8, set_uint8}

  pub set_msg_length-other :
      (n j : ℕ) (s : State)
      → 1 < buffer_length s
      → j ≢ 1
      → get_uint8 j (set_msg_length P n s) ≡ get_uint8 j s
  unfolding set_msg_length
  set_msg_length-other n j s h ne =
      laws.get_uint8-set_length n j (set_uint8 1 (n / 4 % 256) s) ∙ set-other P laws 1 j _ s h ne

  pub set_msg_length-buffer :
      (n : ℕ) (s : State) → buffer_length (set_msg_length P n s) ≡ buffer_length s
  unfolding set_msg_length
  set_msg_length-buffer n s =
      laws.buffer_length-set_length n (set_uint8 1 (n / 4 % 256) s) ∙ laws.buffer_length-set 1 _ s

  pub set_msg_length-length :
      (n : ℕ) (s : State) → n ≤ buffer_length s → get_length (set_msg_length P n s) ≡ n
  unfolding set_msg_length
  set_msg_length-length n s h =
      laws.get_length-set_length n (set_uint8 1 (n / 4 % 256) s)
        (omega (arith, h, laws.buffer_length-set 1 (n / 4 % 256) s))

  pub grow-other :
      (n j : ℕ) (s : State) → 1 < buffer_length s → j ≢ 1 → get_uint8 j (grow P n s) ≡ get_uint8 j s
  unfolding grow
  grow-other n j s h ne = elim (Bool-cases (ltb (get_length s) n)) [
    | inl t ↦ rw t (set_msg_length-other n j s h ne)
    | inr t ↦ rw t refl
  ]

  pub grow-buffer : (n : ℕ) (s : State) → buffer_length (grow P n s) ≡ buffer_length s
  unfolding grow
  grow-buffer n s = elim (Bool-cases (ltb (get_length s) n)) [
    | inl t ↦ rw t (set_msg_length-buffer n s)
    | inr t ↦ rw t refl
  ]

  pub grow-length :
      (n : ℕ) (s : State)
      → n ≤ buffer_length s
      → get_length (grow P n s) ≡ (if ltb (get_length s) n then n else get_length s)
  unfolding grow
  grow-length n s h = elim (Bool-cases (ltb (get_length s) n)) [
    | inl t ↦ rw t (set_msg_length-length n s h)
    | inr t ↦ rw t refl
  ]

  pub set_low-here :
      (i t : ℕ) (s : State)
      → i < buffer_length s
      → t < 16
      → get_uint8 i (set_low P i t s) ≡ get_uint8 i s / 16 * 16 + t
  unfolding set_low
  set_low-here i t s h ht =
      set-here P laws i (bit_or (bit_and (get_uint8 i s) 240) t) s h
      ∙ ap (λ (x : ℕ). x % 256) (put_low_lem (get_uint8 i s) t (laws.get_uint8-byte i s) ht)
      ∙ omega (arith, laws.get_uint8-byte i s, ht)

  pub set_low-other :
      (i t j : ℕ) (s : State)
      → i < buffer_length s
      → j ≢ i
      → get_uint8 j (set_low P i t s) ≡ get_uint8 j s
  unfolding set_low
  set_low-other i t j s h ne = set-other P laws i j _ s h ne

  pub set_low-buffer : (i t : ℕ) (s : State) → buffer_length (set_low P i t s) ≡ buffer_length s
  unfolding set_low
  set_low-buffer i t s = laws.buffer_length-set i _ s

  pub set_low-length : (i t : ℕ) (s : State) → get_length (set_low P i t s) ≡ get_length s
  unfolding set_low
  set_low-length i t s = laws.get_length-set i _ s

  pub address_type_is : (s : State) → get_address_type P s ≡ get_uint8 4 s % 16
  unfolding get_address_type
  address_type_is s = low_lem (get_uint8 4 s) (laws.get_uint8-byte 4 s)

  -- An address that stands at an offset is read as it is.
  pub address_at-found :
      (a : Address) (off : ℕ) (s : State)
      → Known a
      → copy_out P off (address_bytes a.kind) s ≡ a.host
      → address_at P (address_type a.kind) off s ≡ some a
  unfolding address_at
  address_at-found a off s known e =
      rw (kind_lem a.kind known.some_kind, e, address_at)
        (laws.set_raw_some a.kind a.host known.sized)
