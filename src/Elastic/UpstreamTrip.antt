-- ===== src/Elastic/UpstreamTrip.antt =====
-- AppendUpstreamAddr, step by step and for a whole list.
use nrlsmf.Base.{
  ℕ, ◌+◌, ◌-◌, ◌*◌, ◌/◌, ◌%◌, ◌<◌, ◌≤◌, ◌≡◌, ◌≢◌, refl, sym, ap, subst, ◌∙◌, inl, inr, Bool, true,
  false, not, ◌&&◌, List, [], ◌∷◌, ◌++◌, arith, ltb, leb, ◌==◌, length, length-append, All, bit_and,
  bit_or,
}
use nrlsmf.Wire.{Kind, Address, Known, address_bytes, Packet, Laws, copy_out}
use nrlsmf.Wire.Nibbles.{low_lem, put_high_lem}
use nrlsmf.Wire.Copy.{set-other, set-here, copy_in-buffer, copy_out-copy_in, copy_out-Agree}
use nrlsmf.Elastic.{address_type, set_msg_length}
use nrlsmf.Elastic.Ack.{get_upstream_list_length, get_upstream_list_type, append_upstream_addr}
use nrlsmf.Elastic.Flow.{
  words, words_lem, bytes_fit, type_small, type_known, set_msg_length-other, set_msg_length-buffer,
  set_msg_length-length,
}
use nrlsmf.Elastic.RoundTrip.{Described-Agree}
use nrlsmf.Elastic.Upstream.{
  Carries, elem-snoc, elem-below, written, counted, listed_other, listed_byte, written_before,
  write_is, padded_buffer, host_room,
}

-- A slot lies before the next free one.
slot_lem : (i n f : ℕ) → i < n → i * f + f ≤ n * f
slot_lem i n f h =
    let e : n ≡ i + 1 + (n - i - 1) = omega (arith, h) in
    let p : n * f ≡ (i + 1 + (n - i - 1)) * f = ap (λ (m : ℕ). m * f) e in omega (arith, p)

module _ (P : Packet) (laws : Laws P) where
  open P use {State, buffer_length, get_length, set_length, get_uint8, set_uint8}

  pub list_type_is : (s : State) → get_upstream_list_type P s ≡ get_uint8 5 s % 16
  unfolding get_upstream_list_type
  list_type_is s = low_lem (get_uint8 5 s) (laws.get_uint8-byte 5 s)

  module _ (s : State) (dst src a : Address) (us : List Address) (known : Known a)
      (c : Carries P laws s dst src a.kind us) (few : length us < 15)
      (room : 8 + 8 * words dst.kind + (length us + 1) * (4 * words a.kind) ≤ buffer_length s) where
    abbrev n : ℕ
    n = length us

    abbrev t : ℕ
    t = address_type a.kind

    abbrev field : ℕ
    field = 4 * words a.kind

    abbrev base : ℕ
    base = 8 + 8 * words dst.kind

    abbrev wrote : State
    wrote = written P laws s dst src a us known c few room

    abbrev done : State
    done = counted P laws s dst src a us known c few room

    wrote_buffer : buffer_length wrote ≡ buffer_length s
    wrote_buffer =
        copy_in-buffer P laws (base + n * field) a.host _
        ∙ padded_buffer P laws s dst src a us known c few room

    abbrev final : State
    final = set_msg_length P (get_length s + field) done

    final_other : (j : ℕ) → j ≢ 1 → j ≢ 5 → get_uint8 j final ≡ get_uint8 j wrote
    final_other j h1 h5 =
        set_msg_length-other P laws _ j done
          (omega (
            arith,
            laws.buffer_length-set 5 (bit_or (bit_and (get_uint8 5 wrote) 15) ((n + 1) * 16 % 256))
                wrote,
            wrote_buffer,
            room,
          ))
          h1
        ∙ set-other P laws 5 j _ wrote (omega (arith, wrote_buffer, room)) h5

    final_before :
        (j : ℕ) → j ≢ 1 → j ≢ 5 → j < base + n * field → get_uint8 j final ≡ get_uint8 j s
    final_before j h1 h5 h =
        final_other j h1 h5
        ∙ written_before P laws s dst src a us known c few room j h
        ∙ listed_other P laws s dst src a us known c few room j h5

    final_buffer : buffer_length final ≡ buffer_length s
    final_buffer =
        set_msg_length-buffer P laws _ done ∙ laws.buffer_length-set 5 _ wrote ∙ wrote_buffer

    wrote_byte : get_uint8 5 wrote ≡ n * 16 + t
    wrote_byte =
        written_before P laws s dst src a us known c few room 5 (omega arith)
        ∙ listed_byte P laws s dst src a us known c few room

    final_byte : get_uint8 5 final ≡ (n + 1) * 16 + t
    final_byte =
        set_msg_length-other P laws _ 5 done
          (omega (
            arith,
            laws.buffer_length-set 5 (bit_or (bit_and (get_uint8 5 wrote) 15) ((n + 1) * 16 % 256))
                wrote,
            wrote_buffer,
            room,
          ))
          (λ e. omega (arith, e))
        ∙ set-here P laws 5 _ wrote (omega (arith, wrote_buffer, room))
        ∙ ap (λ (x : ℕ). bit_or (bit_and (get_uint8 5 wrote) 15) x % 256) {y = (n + 1) * 16}
            (omega (arith, few))
        ∙ ap (λ (x : ℕ). x % 256)
            (put_high_lem (get_uint8 5 wrote) (n + 1) (laws.get_uint8-byte 5 wrote)
              (omega (arith, few)))
        ∙ omega (arith, wrote_byte, type_small a.kind, few)

    result : append_upstream_addr P a s ≡ (true, final)
    unfolding append_upstream_addr get_upstream_list_length
    result =
        let len : get_uint8 5 s / 16 ≡ n = c.count in
        let space : ltb (buffer_length s) (get_length s + field) ≡ false =
          ground (arith, c.used, room) in
        let room15 : leb 15 n ≡ false = ground (arith, few) in
        let same_type : (ltb 0 n && not (get_upstream_list_type P s == t)) ≡ false =
          ground (arith, c.list_type, list_type_is s) in
        rw
          (
            type_known a.kind known.some_kind,
            words_lem a.kind,
            len,
            space,
            room15,
            same_type,
            write_is P laws s dst src a us known c few room,
            append_upstream_addr,
          )
          refl

    final-Carries : Carries P laws final dst src a.kind (us ++ (a ∷ []))
    final-Carries = record {
      described =
          Described-Agree P laws s final dst src final_buffer
            (final_before 4 (λ e. omega (arith, e)) (λ e. omega (arith, e)) (omega arith))
            (λ j lo hi.
              final_before j (λ e. omega (arith, lo, e)) (λ e. omega (arith, lo, e))
                (omega (arith, hi)))
            c.described;
      count = omega (arith, final_byte, type_small a.kind, length-append us (a ∷ []));
      list_type = λ h. omega (arith, final_byte, type_small a.kind);
      used =
          set_msg_length-length P laws _ done (
            omega (
              arith,
              laws.buffer_length-set 5
                  (bit_or (bit_and (get_uint8 5 wrote) 15) ((n + 1) * 16 % 256)) wrote,
              wrote_buffer,
              c.used,
              room,
            ))
          ∙ omega (arith, c.used, ap (λ (m : ℕ). m * field) (length-append us (a ∷ [])));
      placed = λ i b e. elim (elem-snoc us a b i e) [
        | inl f ↦
            copy_out-Agree P laws (base + i * field) (address_bytes a.kind) final s (λ j lo hi.
              final_before j (λ k. omega (arith, lo, k)) (λ k. omega (arith, lo, k))
                (below i j (elem-below us b i f) hi))
            ∙ c.placed i b f
        | inr f ↦
            subst
              (λ (x : Address). copy_out P (base + i * field) (address_bytes a.kind) final ≡ x.host)
              f.1
              (subst
                (λ (m : ℕ). copy_out P (base + m * field) (address_bytes a.kind) final ≡ a.host)
                (sym f.0) new)
      ];
    }
      where
        below :
            (i j : ℕ) → i < n → j < base + i * field + address_bytes a.kind → j < base + n * field
        below i j h hi = omega (arith, hi, slot_lem i n field h, bytes_fit a.kind)

        new : copy_out P (base + n * field) (address_bytes a.kind) final ≡ a.host
        new =
            copy_out-Agree P laws (base + n * field) (address_bytes a.kind) final wrote
              (λ j lo hi. final_other j (λ k. omega (arith, lo, k)) (λ k. omega (arith, lo, k)))
            ∙ ap (λ (m : ℕ). copy_out P (base + n * field) m wrote) (sym known.sized)
            ∙ copy_out-copy_in P laws (base + n * field) a.host _
                (host_room P laws s dst src a us known c few room) known.bytes

  -- Every address of the list is known and has the type `u`.
  abbrev pub AllOf : Kind → List Address → Type 0
  AllOf u us = All (λ a. Known a × (a.kind ≡ u)) us

  -- AppendUpstreamAddr for each address of a list.
  unfoldable pub append_all : List Address → State → Bool × State
  append_all [] s = (true, s)
  append_all (a ∷ as') s =
      let r = append_upstream_addr P a s in let rest = append_all as' r.1 in (r.0 && rest.0, rest.1)

  pub append_buffer :
      (s : State) (dst src a : Address) (us : List Address)
      → Known a
      → Carries P laws s dst src a.kind us
      → length us < 15
      → 8 + 8 * words dst.kind + (length us + 1) * (4 * words a.kind) ≤ buffer_length s
      → buffer_length (append_upstream_addr P a s).1 ≡ buffer_length s
  append_buffer s dst src a us known c few room =
      simp (result s dst src a us known c few room) (final_buffer s dst src a us known c few room)

  -- AppendUpstreamAddr with an address of the list's type puts it at the end of the list and
  -- reports success, as long as the list has fewer than 15 addresses and the buffer has room.
  pub append_upstream_addr-Carries :
      (s : State) (dst src a : Address) (us : List Address)
      → Known a
      → Carries P laws s dst src a.kind us
      → length us < 15
      → 8 + 8 * words dst.kind + (length us + 1) * (4 * words a.kind) ≤ buffer_length s
      → ((append_upstream_addr P a s).0 ≡ true)
        × Carries P laws (append_upstream_addr P a s).1 dst src a.kind (us ++ (a ∷ []))
  append_upstream_addr-Carries s dst src a us known c few room =
      simp (result s dst src a us known c few room)
        (refl, final-Carries s dst src a us known c few room)
