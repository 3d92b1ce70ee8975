-- ===== src/Elastic/Source.antt =====
-- SetSrcAddr on a message that describes a destination, and both addresses from the start.
use nrlsmf.Base.{
  ℕ, ◌+◌, ◌*◌, ◌/◌, ◌%◌, ◌<◌, ◌≤◌, ◌≡◌, ◌≢◌, refl, sym, ap, ◌∙◌, true, false, not, some, arith, ltb,
  ◌==◌, if◌then◌else◌, length, bit_and, bit_or,
}
use nrlsmf.Wire.{Address, Known, address_bytes, Packet, Laws, copy_in, copy_out}
use nrlsmf.Wire.Nibbles.{source_flag_lem}
use nrlsmf.Wire.Copy.{
  set-other, set-here, copy_in-buffer, copy_in-length, copy_in-before, copy_out-copy_in,
  copy_out-Agree,
}
use nrlsmf.Elastic.{
  flag_source, address_type, get_address_field_words, set_flag, flag_is_set, grow, set_low,
  offset_src_addr, put_src_addr, set_dst_addr, set_src_addr, get_dst_addr,
}
use nrlsmf.Elastic.Ack.{ack_get_src_addr}
use nrlsmf.Elastic.Adv.{adv_get_src_addr}
use nrlsmf.Elastic.Flow.{
  words, words_lem, bytes_fit, type_small, type_known, grow-other, grow-buffer, grow-length,
  set_low-here, set_low-other, set_low-buffer, set_low-length,
}
use nrlsmf.Elastic.RoundTrip.{ToDst, Described, src_offset, read_back, set_dst_addr-ToDst}

module _ (P : Packet) (laws : Laws P) where
  open P use {State, buffer_length, get_length, get_uint8, set_uint8}

  set_flag-here :
      (s : State)
      → 4 < buffer_length s
      → get_uint8 4 (set_flag P flag_source s) ≡ bit_or (get_uint8 4 s) 16 % 256
  unfolding set_flag
  set_flag-here s h = set-here P laws 4 _ s h ∙ omega arith

  set_flag-other :
      (s : State) (j : ℕ)
      → 4 < buffer_length s
      → j ≢ 4
      → get_uint8 j (set_flag P flag_source s) ≡ get_uint8 j s
  unfolding set_flag
  set_flag-other s j h ne = set-other P laws 4 j _ s h ne

  set_flag-buffer : (s : State) → buffer_length (set_flag P flag_source s) ≡ buffer_length s
  unfolding set_flag
  set_flag-buffer s = laws.buffer_length-set 4 _ s

  set_flag-length : (s : State) → get_length (set_flag P flag_source s) ≡ get_length s
  unfolding set_flag
  set_flag-length s = laws.get_length-set 4 _ s

  module _ (s : State) (dst src : Address) (known : Known src) (same : src.kind ≡ dst.kind)
      (d : ToDst P laws s dst) where
    abbrev w : ℕ
    w = words dst.kind

    abbrev t : ℕ
    t = address_type src.kind

    abbrev need : ℕ
    need = 8 + 8 * get_address_field_words t

    abbrev grown : State
    grown = grow P need s

    abbrev flagged : State
    flagged = set_flag P flag_source grown

    abbrev typed : State
    typed = set_low P 4 t flagged

    t_is : t ≡ address_type dst.kind
    t_is = ap address_type same

    need_is : need ≡ 8 + 8 * w
    need_is = omega (arith, ap get_address_field_words t_is, words_lem dst.kind)

    typed_buffer : buffer_length typed ≡ buffer_length s
    typed_buffer = set_low-buffer P laws 4 _ _ ∙ set_flag-buffer grown ∙ grow-buffer P laws need s

    flagged_room : 8 ≤ buffer_length flagged
    flagged_room = omega (arith, set_flag-buffer grown, grow-buffer P laws need s, d.room)

    byte_4 : get_uint8 4 typed ≡ bit_or (get_uint8 4 grown) 16 % 256 / 16 * 16 + t
    byte_4 =
        set_low-here P laws 4 t flagged (omega (arith, flagged_room)) (type_small src.kind)
        ∙ ap (λ (x : ℕ). x / 16 * 16 + t)
            (set_flag-here grown (omega (arith, grow-buffer P laws need s, d.room)))

    typed_other : (j : ℕ) → j ≢ 4 → j ≢ 1 → get_uint8 j typed ≡ get_uint8 j s
    typed_other j n4 n1 =
        set_low-other P laws 4 t j flagged (omega (arith, flagged_room)) n4
        ∙ set_flag-other grown j (omega (arith, grow-buffer P laws need s, d.room)) n4
        ∙ grow-other P laws need j s (omega (arith, d.room)) n1

    typed_low : get_uint8 4 typed % 16 ≡ address_type dst.kind
    typed_low = omega (arith, byte_4, t_is, type_small src.kind)

    typed_flag : flag_is_set P flag_source typed ≡ true
    unfolding flag_is_set
    typed_flag =
        let high : get_uint8 4 typed / 16 ≡ bit_or (get_uint8 4 grown) 16 % 256 / 16 =
          omega (arith, byte_4, type_small src.kind) in
        rw (high, source_flag_lem (get_uint8 4 grown) (laws.get_uint8-byte 4 grown), flag_is_set)
          refl

    typed_ToDst : ToDst P laws typed dst
    typed_ToDst = record {
      room = omega (arith, typed_buffer, d.room);
      typed = typed_low;
      dst_at =
          copy_out-Agree P laws 8 (address_bytes dst.kind) typed s
            (λ j lo hi. typed_other j (λ e. omega (arith, lo, e)) (λ e. omega (arith, lo, e)))
          ∙ d.dst_at;
    }

    place : 4 * offset_src_addr P typed ≡ 8 + 4 * w
    place = omega (arith, src_offset P laws typed dst typed_ToDst)

    src_room : 8 + 4 * w + length src.host ≤ buffer_length typed
    src_room =
        omega (arith, typed_buffer, d.room, known.sized, ap address_bytes same, bytes_fit dst.kind)

    src_result : set_src_addr P src s ≡ (true, copy_in P (8 + 4 * w) src.host typed)
    unfolding set_src_addr put_src_addr
    src_result =
        let ok : ltb (buffer_length s) need ≡ false = ground (arith, d.room, need_is) in
        rw (type_known src.kind known.some_kind, ok, place, set_src_addr) refl

    -- SetSrcAddr of an address of the destination's type completes the description.
    pub set_src_addr-Described :
        ((set_src_addr P src s).0 ≡ true) × Described P laws (set_src_addr P src s).1 dst src
    unfolding flag_is_set
    set_src_addr-Described =
        let four : get_uint8 4 (copy_in P (8 + 4 * w) src.host typed) ≡ get_uint8 4 typed =
          copy_in-before P laws (8 + 4 * w) src.host typed 4 src_room (omega arith) in
        simp src_result (
          refl,
          record {
            to_dst = record {
              room =
                  omega
                    (arith, copy_in-buffer P laws (8 + 4 * w) src.host typed, typed_buffer, d.room);
              typed = ap (λ (x : ℕ). x % 16) four ∙ typed_low;
              dst_at =
                  copy_out-Agree P laws 8 (address_bytes dst.kind) _ typed (λ j lo hi.
                    copy_in-before P laws (8 + 4 * w) src.host typed j src_room
                      (omega (arith, hi, bytes_fit dst.kind)))
                  ∙ typed_ToDst.dst_at;
            };
            source = ap (λ (x : ℕ). not (bit_and 1 (x / 16) == 0)) four ∙ typed_flag;
            src_at =
                ap (λ (n : ℕ). copy_out P (8 + 4 * w) n (copy_in P (8 + 4 * w) src.host typed))
                  (ap address_bytes (sym same) ∙ sym known.sized)
                ∙ copy_out-copy_in P laws (8 + 4 * w) src.host typed src_room known.bytes;
          },
        )

    pub src_length :
        get_length (set_src_addr P src s).1
        ≡ (if ltb (get_length s) (8 + 8 * w) then 8 + 8 * w else get_length s)
    src_length = simp src_result (
        copy_in-length P laws (8 + 4 * w) src.host typed
        ∙ set_low-length P laws 4 _ _
        ∙ set_flag-length grown
        ∙ grow-length P laws need s (omega (arith, need_is, d.room))
        ∙ ap (λ (n : ℕ). if ltb (get_length s) n then n else get_length s) need_is)

    pub src_other :
        (j : ℕ) → j < 8 → j ≢ 4 → j ≢ 1 → get_uint8 j (set_src_addr P src s).1 ≡ get_uint8 j s
    src_other j h n4 n1 = simp src_result (
        copy_in-before P laws (8 + 4 * w) src.host typed j src_room (omega (arith, h))
        ∙ typed_other j n4 n1)

    pub src_buffer : buffer_length (set_src_addr P src s).1 ≡ buffer_length s
    src_buffer = simp src_result (copy_in-buffer P laws (8 + 4 * w) src.host typed ∙ typed_buffer)

  -- After SetDstAddr and SetSrcAddr with two addresses of one known type, in a buffer with room
  -- for both, the getters of ElasticAck and ElasticAdv return the two addresses, and both calls
  -- report success. The packet buffer keeps its laws.
  pub flow_round_trip :
      (s : State) (dst src : Address)
      → Known dst
      → Known src
      → src.kind ≡ dst.kind
      → 8 + 8 * words dst.kind ≤ buffer_length s
      → let d = set_dst_addr P dst s in
        let r = set_src_addr P src d.1 in
        (d.0 ≡ true)
        × (r.0 ≡ true)
        × (get_dst_addr P r.1 ≡ some dst)
        × (ack_get_src_addr P r.1 ≡ some src)
        × (adv_get_src_addr P r.1 ≡ some src)
  flow_round_trip s dst src kd ks same room =
      let d = set_dst_addr-ToDst P laws s dst kd room in
      let r = set_src_addr-Described (set_dst_addr P dst s).1 dst src ks same d.1 in
      let b = read_back P laws _ dst src kd ks same r.1 in (d.0, r.0, b.0, b.1, b.2)
