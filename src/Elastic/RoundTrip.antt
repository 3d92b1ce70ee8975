-- ===== src/Elastic/RoundTrip.antt =====
-- The addresses of a flow description: what SetDstAddr and SetSrcAddr write is what GetDstAddr and
-- GetSrcAddr read.
use nrlsmf.Base.{
  ℕ, ◌+◌, ◌*◌, ◌/◌, ◌%◌, ◌<◌, ◌≤◌, ◌≡◌, ◌≢◌, refl, sym, ap, ◌∙◌, true, false, not, some, arith, ltb,
  ◌==◌, if◌then◌else◌, length, bit_and,
}
use nrlsmf.Wire.{Kind, Address, Known, address_bytes, Packet, Laws, copy_in, copy_out}
use nrlsmf.Wire.Copy.{
  Agree, copy_in-buffer, copy_in-length, copy_in-before, copy_out-copy_in, copy_out-Agree,
}
use nrlsmf.Elastic.{
  flag_source, address_type, get_address_field_words, flag_is_set, get_address_type, address_at,
  grow, set_low, offset_src_addr, offset_past_flow, put_dst_addr, set_dst_addr, get_dst_addr,
}
use nrlsmf.Elastic.Ack.{ack_get_src_addr}
use nrlsmf.Elastic.Adv.{adv_get_src_addr}
use nrlsmf.Elastic.Flow.{
  words, words_lem, bytes_fit, type_small, type_known, grow-other, grow-buffer, grow-length,
  set_low-here, set_low-other, set_low-buffer, set_low-length, address_type_is, address_at-found,
}

module _ (P : Packet) (laws : Laws P) where
  open P use {State, buffer_length, get_length, get_uint8, set_uint8}

  -- The message describes flows to `dst`.
  pub record ToDst (s : State) (dst : Address) : Type 0 where
    pub room : 8 + 8 * words dst.kind ≤ buffer_length s
    pub typed : get_uint8 4 s % 16 ≡ address_type dst.kind
    pub dst_at : copy_out P 8 (address_bytes dst.kind) s ≡ dst.host

  -- The message describes the flow from `src` to `dst`.
  pub record Described (s : State) (dst src : Address) : Type 0 where
    pub to_dst : ToDst s dst
    pub source : flag_is_set P flag_source s ≡ true
    pub src_at : copy_out P (8 + 4 * words dst.kind) (address_bytes dst.kind) s ≡ src.host

  pub type_of :
      (s : State) (dst : Address) → ToDst s dst → get_address_type P s ≡ address_type dst.kind
  type_of s dst d = address_type_is P laws s ∙ d.typed

  pub src_offset :
      (s : State) (dst : Address) → ToDst s dst → offset_src_addr P s ≡ 2 + words dst.kind
  unfolding offset_src_addr
  src_offset s dst d =
      ap (λ (t : ℕ). 2 + get_address_field_words t) (type_of s dst d)
      ∙ ap (λ (w : ℕ). 2 + w) (words_lem dst.kind)

  pub past_offset :
      (s : State) (dst src : Address)
      → Described s dst src
      → offset_past_flow P s ≡ 2 + 2 * words dst.kind
  unfolding offset_past_flow
  past_offset s dst src d =
      let t = d.to_dst in
      let w : get_address_field_words (get_address_type P s) ≡ words dst.kind =
        ap get_address_field_words (type_of s dst t) ∙ words_lem dst.kind in
      rw (d.source, src_offset s dst t, w, offset_past_flow) (omega arith)

  -- What keeps the two places of the flow description keeps what is read there.
  pub Described-Agree :
      (s t : State) (dst src : Address)
      → buffer_length t ≡ buffer_length s
      → get_uint8 4 t ≡ get_uint8 4 s
      → Agree P laws 8 (8 + 8 * words dst.kind) t s
      → Described s dst src
      → Described t dst src
  unfolding flag_is_set
  Described-Agree s t dst src b f a d = record {
    to_dst = record {
      room = omega (arith, b, d.to_dst.room);
      typed = ap (λ (x : ℕ). x % 16) f ∙ d.to_dst.typed;
      dst_at =
          copy_out-Agree P laws 8 (address_bytes dst.kind) t s
            (λ j lo hi. a j lo (omega (arith, hi, bytes_fit dst.kind)))
          ∙ d.to_dst.dst_at;
    };
    source = ap (λ (x : ℕ). not (bit_and 1 (x / 16) == 0)) f ∙ d.source;
    src_at =
        copy_out-Agree P laws (8 + 4 * words dst.kind) (address_bytes dst.kind) t s
          (λ j lo hi. a j (omega (arith, lo)) (omega (arith, hi, bytes_fit dst.kind)))
        ∙ d.src_at;
  }

  -- The getters on a message that describes a flow.
  pub read_back :
      (s : State) (dst src : Address)
      → Known dst
      → Known src
      → src.kind ≡ dst.kind
      → Described s dst src
      → (get_dst_addr P s ≡ some dst)
        × (ack_get_src_addr P s ≡ some src)
        × (adv_get_src_addr P s ≡ some src)
  unfolding get_dst_addr ack_get_src_addr adv_get_src_addr
  read_back s dst src kd ks same d =
      let at_src : address_at P (get_address_type P s) (4 * offset_src_addr P s) s ≡ some src =
        ap (λ (t : ℕ). address_at P t (4 * offset_src_addr P s) s)
          (type_of s dst d.to_dst ∙ ap address_type (sym same))
        ∙ address_at-found P laws src (4 * offset_src_addr P s) s ks (place ∙ d.src_at) in
      (
        ap (λ (t : ℕ). address_at P t 8 s) (type_of s dst d.to_dst)
            ∙ address_at-found P laws dst 8 s kd d.to_dst.dst_at,
        at_src,
        rw (d.source, adv_get_src_addr) at_src,
      )
    where
      place :
          copy_out P (4 * offset_src_addr P s) (address_bytes src.kind) s
          ≡ copy_out P (8 + 4 * words dst.kind) (address_bytes dst.kind) s
      place =
          ap (λ (k : Kind). copy_out P (4 * offset_src_addr P s) (address_bytes k) s) same
          ∙ ap (λ (o : ℕ). copy_out P o (address_bytes dst.kind) s)
              (omega (arith, src_offset s dst d.to_dst))

  module _ (s : State) (dst : Address) (known : Known dst)
      (room : 8 + 8 * words dst.kind ≤ buffer_length s) where
    abbrev dst_need : ℕ
    dst_need = 8 + 4 * get_address_field_words (address_type dst.kind)

    abbrev dst_typed : State
    dst_typed = set_low P 4 (address_type dst.kind) (grow P dst_need s)

    dst_buffer : buffer_length dst_typed ≡ buffer_length s
    dst_buffer = set_low-buffer P laws 4 _ _ ∙ grow-buffer P laws dst_need s

    dst_room : 8 + length dst.host ≤ buffer_length dst_typed
    dst_room = omega (arith, dst_buffer, room, known.sized, bytes_fit dst.kind)

    dst_result : set_dst_addr P dst s ≡ (true, copy_in P 8 dst.host dst_typed)
    unfolding set_dst_addr put_dst_addr
    dst_result =
        let ok : ltb (buffer_length s) dst_need ≡ false =
          ground (arith, room, words_lem dst.kind) in
        rw (type_known dst.kind known.some_kind, ok, set_dst_addr) refl

    pub set_dst_addr-ToDst : ((set_dst_addr P dst s).0 ≡ true) × ToDst (set_dst_addr P dst s).1 dst
    set_dst_addr-ToDst = simp dst_result (
      refl,
      record {
        room = omega (arith, copy_in-buffer P laws 8 dst.host dst_typed, dst_buffer, room);
        typed =
            ap (λ (x : ℕ). x % 16)
              (copy_in-before P laws 8 dst.host dst_typed 4 dst_room (omega arith)
                ∙ set_low-here P laws 4 (address_type dst.kind) (grow P dst_need s)
                    (omega (arith, grow-buffer P laws dst_need s, room)) (type_small dst.kind))
            ∙ omega (arith, type_small dst.kind);
        dst_at =
            ap (λ (n : ℕ). copy_out P 8 n (copy_in P 8 dst.host dst_typed)) (sym known.sized)
            ∙ copy_out-copy_in P laws 8 dst.host dst_typed dst_room known.bytes;
      },
    )

    pub dst_length : get_length (set_dst_addr P dst s).1 ≡ (
        if ltb (get_length s) (8 + 4 * words dst.kind)
        then 8 + 4 * words dst.kind
        else get_length s)
    dst_length = simp dst_result (
        copy_in-length P laws 8 dst.host dst_typed
        ∙ set_low-length P laws 4 _ _
        ∙ grow-length P laws dst_need s (omega (arith, room, words_lem dst.kind))
        ∙ ap (λ (w : ℕ). if ltb (get_length s) (8 + 4 * w) then 8 + 4 * w else get_length s)
            (words_lem dst.kind))

    pub dst_buffer_kept : buffer_length (set_dst_addr P dst s).1 ≡ buffer_length s
    dst_buffer_kept = simp dst_result (copy_in-buffer P laws 8 dst.host dst_typed ∙ dst_buffer)

    pub dst_other :
        (j : ℕ) → j < 8 → j ≢ 4 → j ≢ 1 → get_uint8 j (set_dst_addr P dst s).1 ≡ get_uint8 j s
    dst_other j h n4 n1 = simp dst_result (
        copy_in-before P laws 8 dst.host dst_typed j dst_room h
        ∙ set_low-other P laws 4 _ j _ (omega (arith, grow-buffer P laws dst_need s, room)) n4
        ∙ grow-other P laws dst_need j s (omega (arith, room)) n1)
