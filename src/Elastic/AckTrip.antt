-- ===== src/Elastic/AckTrip.antt =====
-- A whole ElasticAck, built and read back.
use nrlsmf.Base.{
  ℕ, zero, suc, ◌+◌, ◌*◌, ◌<◌, ◌≤◌, ◌≡◌, refl, sym, ap, subst, ◌∙◌, inl, inr, Bool, true, false,
  ◌&&◌, none, some, List, [], ◌∷◌, ◌++◌, arith, ltb, leb, if◌then◌else◌, Option-cases, length,
  length-append, get_elem?, get_or, replicate, All,
}
use mathlib.Core.List.{append-nil, append_assoc}
use nrlsmf.Wire.{Kind, Address, Known, address_bytes, Packet, Laws, copy_in, copy_out}
use nrlsmf.Wire.Copy.{set-other, copy_in-buffer, copy_out-copy_in}
use nrlsmf.Elastic.{
  address_type, offset_past_flow, set_type, set_dst_addr, set_src_addr, get_dst_addr,
}
use nrlsmf.Elastic.Ack.{
  fresh, ack_init_into_buffer, ack_get_src_addr, get_upstream_list_length, get_upstream_list_type,
  get_upstream_addr, append_upstream_addr,
}
use nrlsmf.Elastic.Flow.{
  words, words_lem, address_at-found, set_msg_length-other, set_msg_length-buffer,
  set_msg_length-length,
}
use nrlsmf.Elastic.RoundTrip.{
  ToDst, Described, past_offset, read_back, set_dst_addr-ToDst, dst_length, dst_other,
  dst_buffer_kept,
}
use nrlsmf.Elastic.Source.{set_src_addr-Described, src_length, src_other, src_buffer}
use nrlsmf.Elastic.Upstream.{Carries, elem-below}
use nrlsmf.Elastic.UpstreamTrip.{
  AllOf, append_all, append_buffer, append_upstream_addr-Carries, list_type_is,
}

elem-none : (us : List Address) (i : ℕ) → get_elem? us i ≡ none → length us ≤ i
elem-none [] i e = omega arith
elem-none (u ∷ us) zero e = cc
elem-none (u ∷ us) (suc i) e = omega (arith, elem-none us i e)

All-at {ℓ} :
    (Q : Address → Type ℓ) (us : List Address) (i : ℕ) (a : Address)
    → All Q us
    → get_elem? us i ≡ some a
    → Q a
All-at Q [] i a h e = cc
All-at Q (u ∷ us) zero a h e = subst Q (some_inj u a e) h.0
  where
    some_inj : (x y : Address) → some x ≡ some y → x ≡ y
    some_inj x y p = cc
All-at Q (u ∷ us) (suc i) a h e = All-at Q us i a h.1 e

module _ (P : Packet) (laws : Laws P) where
  open P use {State, buffer_length, get_length, get_uint8, set_uint8}

  -- On a message that carries `us`, GetUpstreamAddr gives the address at each index, and fails past
  -- the end.
  upstream_back :
      (s : State) (dst src : Address) (u : Kind) (us : List Address)
      → AllOf P laws u us
      → Carries P laws s dst src u us
      → (i : ℕ) → get_upstream_addr P i s ≡ get_elem? us i
  unfolding get_upstream_addr get_upstream_list_length
  upstream_back s dst src u us all c i = elim (Option-cases (get_elem? us i)) [
    | inl e ↦
        let far : leb (length us) i ≡ true = ground (arith, elem-none us i e) in
        rw (c.count, far, get_upstream_addr) (sym e)
    | inr (a, e) ↦
        let below : i < length us = elem-below us a i e in
        let near : leb (length us) i ≡ false = ground (arith, below) in
        let k = All-at (λ b. Known b × (b.kind ≡ u)) us i a all e in
        let t : get_upstream_list_type P s ≡ address_type a.kind =
          list_type_is P laws s ∙ c.list_type (omega (arith, below)) ∙ ap address_type (sym k.1) in
        let off : 4 * offset_past_flow P s + i * (4 * words a.kind)
            ≡ 8 + 8 * words dst.kind + i * (4 * words a.kind) =
          omega (arith, past_offset P laws s dst src c.described) in
        let at : copy_out P (8 + 8 * words dst.kind + i * (4 * words a.kind)) (address_bytes a.kind)
              s
            ≡ a.host =
          subst
            (λ (v : Kind).
              copy_out P (8 + 8 * words dst.kind + i * (4 * words v)) (address_bytes v) s ≡ a.host)
            (sym k.1) (c.placed i a e) in
        rw (c.count, near, t, words_lem a.kind, off, get_upstream_addr)
          (address_at-found P laws a _ s k.0 at ∙ sym e)
  ]

  append_all-Carries :
      (as' us : List Address) (s : State) (dst src : Address) (u : Kind)
      → AllOf P laws u as'
      → Carries P laws s dst src u us
      → length us + length as' ≤ 15
      → 8 + 8 * words dst.kind + (length us + length as') * (4 * words u) ≤ buffer_length s
      → ((append_all P laws as' s).0 ≡ true)
        × Carries P laws (append_all P laws as' s).1 dst src u (us ++ as')
  unfolding append_all
  append_all-Carries [] us s dst src u all c few room =
      (refl, subst (Carries P laws s dst src u) (sym (append-nil us)) c)
  append_all-Carries (a ∷ as') us s dst src u all c few room =
      let k = all.0.1 in
      let c' : Carries P laws s dst src a.kind us =
        subst (λ (v : Kind). Carries P laws s dst src v us) (sym k) c in
      let one : 8 + 8 * words dst.kind + (length us + 1) * (4 * words a.kind) ≤ buffer_length s =
        subst
          (λ (v : Kind). 8 + 8 * words dst.kind + (length us + 1) * (4 * words v) ≤ buffer_length s)
          (sym k) (omega (arith, room)) in
      let r =
        append_upstream_addr-Carries P laws s dst src a us all.0.0 c' (omega (arith, few)) one in
      let c2 : Carries P laws (append_upstream_addr P a s).1 dst src u (us ++ (a ∷ [])) =
        subst
          (λ (v : Kind). Carries P laws (append_upstream_addr P a s).1 dst src v (us ++ (a ∷ []))) k
          r.1 in
      let rest =
        append_all-Carries as' (us ++ (a ∷ [])) (append_upstream_addr P a s).1 dst src u all.1 c2
          (omega (arith, length-append us (a ∷ []), few))
          (omega (
            arith,
            room,
            append_buffer P laws s dst src a us all.0.0 c' (omega (arith, few)) one,
            ap (λ (m : ℕ). (m + length as') * (4 * words u)) (length-append us (a ∷ [])),
          )) in
      (
        rw (r.0, rest.0) refl,
        subst (Carries P laws (append_all P laws as' (append_upstream_addr P a s).1).1 dst src u)
            (append_assoc us (a ∷ []) as') rest.1,
      )

  abbrev zeros : List ℕ
  zeros = replicate 8 0

  module _ (s : State) (room : 8 ≤ buffer_length s) where
    abbrev cleared : State
    cleared = copy_in P 0 zeros s

    cleared_5 : get_uint8 5 cleared ≡ 0
    unfolding copy_out
    cleared_5 =
        ap (λ (l : List ℕ). get_or l 5 0)
          (copy_out-copy_in P laws 0 zeros s room (
            omega arith,
            (
              omega arith,
              (
                omega arith,
                (omega arith, (omega arith, (omega arith, (omega arith, (omega arith, tt))))),
              ),
            ),
          ))

    fresh_5 : (t : ℕ) → get_uint8 5 (fresh P t s) ≡ 0
    unfolding fresh set_type
    fresh_5 t =
        set_msg_length-other P laws 8 5 _
          (omega (arith, laws.buffer_length-set 0 t cleared, copy_in-buffer P laws 0 zeros s, room))
          (λ e. omega (arith, e))
        ∙ set-other P laws 0 5 t cleared (omega (arith, copy_in-buffer P laws 0 zeros s, room))
            (λ e. omega (arith, e))
        ∙ cleared_5

    fresh_buffer : (t : ℕ) → buffer_length (fresh P t s) ≡ buffer_length s
    unfolding fresh set_type
    fresh_buffer t =
        set_msg_length-buffer P laws 8 _
        ∙ laws.buffer_length-set 0 t cleared
        ∙ copy_in-buffer P laws 0 zeros s

    fresh_length : (t : ℕ) → get_length (fresh P t s) ≡ 8
    unfolding fresh set_type
    fresh_length t =
        set_msg_length-length P laws 8 _
          (omega (arith, laws.buffer_length-set 0 t cleared, copy_in-buffer P laws 0 zeros s, room))

  -- InitIntoBuffer, SetDstAddr, SetSrcAddr and AppendUpstreamAddr for a list: an ElasticAck.
  unfoldable pub build_ack : Address → Address → List Address → State → Bool × State
  build_ack dst src us s =
      let i = ack_init_into_buffer P none 0 s in
      let d = set_dst_addr P dst i.1 in
      let r = set_src_addr P src d.1 in
      let u = append_all P laws us r.1 in (i.0 && (d.0 && (r.0 && u.0)), u.1)

  module _ (s : State) (dst src : Address) (u : Kind) (us : List Address) (kd : Known dst)
      (ks : Known src) (same : src.kind ≡ dst.kind) (all : AllOf P laws u us) (few : length us ≤ 15)
      (room : 8 + 8 * words dst.kind + length us * (4 * words u) ≤ buffer_length s) where
    abbrev s0 : State
    s0 = fresh P 1 s

    abbrev s1 : State
    s1 = (set_dst_addr P dst s0).1

    abbrev s2 : State
    s2 = (set_src_addr P src s1).1

    buffer_0 : buffer_length s0 ≡ buffer_length s
    buffer_0 = fresh_buffer s (omega (arith, room)) 1

    buffer_1 : buffer_length s1 ≡ buffer_length s
    buffer_1 = dst_buffer_kept P laws s0 dst kd (omega (arith, room, buffer_0)) ∙ buffer_0

    to_dst : ((set_dst_addr P dst s0).0 ≡ true) × ToDst P laws s1 dst
    to_dst = set_dst_addr-ToDst P laws s0 dst kd (omega (arith, room, buffer_0))

    described : ((set_src_addr P src s1).0 ≡ true) × Described P laws s2 dst src
    described = set_src_addr-Described P laws s1 dst src ks same to_dst.1

    buffer_2 : buffer_length s2 ≡ buffer_length s
    buffer_2 = src_buffer P laws s1 dst src ks same to_dst.1 ∙ buffer_1

    length_2 : get_length s2 ≡ 8 + 8 * words dst.kind
    length_2 =
        src_length P laws s1 dst src ks same to_dst.1
        ∙ ap (λ (n : ℕ). if ltb n (8 + 8 * words dst.kind) then 8 + 8 * words dst.kind else n)
            length_1
        ∙ ground arith
      where
        length_1 : get_length s1 ≡ 8 + 4 * words dst.kind
        length_1 =
            dst_length P laws s0 dst kd (omega (arith, room, buffer_0))
            ∙ ap (λ (n : ℕ). if ltb n (8 + 4 * words dst.kind) then 8 + 4 * words dst.kind else n)
                (fresh_length s (omega (arith, room)) 1)
            ∙ ground arith

    byte_5 : get_uint8 5 s2 ≡ 0
    byte_5 =
        src_other P laws s1 dst src ks same to_dst.1 5 (omega arith) (λ e. omega (arith, e))
          (λ e. omega (arith, e))
        ∙ dst_other P laws s0 dst kd (omega (arith, room, buffer_0)) 5 (omega arith)
            (λ e. omega (arith, e)) (λ e. omega (arith, e))
        ∙ fresh_5 s (omega (arith, room)) 1

    Carries-none : Carries P laws s2 dst src u []
    Carries-none = record {
      described = described.1;
      count = omega (arith, byte_5);
      list_type = λ h. absurd (omega (arith, h));
      used = omega (arith, length_2);
      placed = λ i a e. cc;
    }

    whole :
        ((append_all P laws us s2).0 ≡ true)
        × Carries P laws (append_all P laws us s2).1 dst src u us
    whole =
        append_all-Carries us [] s2 dst src u all Carries-none (omega (arith, few))
          (omega (arith, room, buffer_2))

    started : ack_init_into_buffer P none 0 s ≡ (true, s0)
    unfolding ack_init_into_buffer
    started =
        let ok : ltb (buffer_length s) 8 ≡ false = ground (arith, room) in
        rw (ok, ack_init_into_buffer) refl

    built : build_ack dst src us s ≡ (true, (append_all P laws us s2).1)
    unfolding build_ack
    built = rw (started, to_dst.0, described.0, whole.0, build_ack) refl

  -- An ElasticAck that is built in a buffer with room for it, from a destination and a source
  -- of one known type and up to 15 upstream addresses of one known type, is built with success;
  -- the getters return the destination, the source and the upstream address at each index, and
  -- none past the end; and the message has the length of its fields. The packet buffer keeps
  -- its laws.
  pub ack_round_trip :
      (s : State) (dst src : Address) (u : Kind) (us : List Address)
      → Known dst
      → Known src
      → src.kind ≡ dst.kind
      → AllOf P laws u us
      → length us ≤ 15
      → 8 + 8 * words dst.kind + length us * (4 * words u) ≤ buffer_length s
      → let r = build_ack dst src us s in
        (r.0 ≡ true)
        × (get_dst_addr P r.1 ≡ some dst)
        × (ack_get_src_addr P r.1 ≡ some src)
        × ((i : ℕ) → get_upstream_addr P i r.1 ≡ get_elem? us i)
        × (get_length r.1 ≡ 8 + 8 * words dst.kind + length us * (4 * words u))
  ack_round_trip s dst src u us kd ks same all few room =
      let c = (whole s dst src u us kd ks same all few room).1 in
      let b = read_back P laws _ dst src kd ks same c.described in
      simp (built s dst src u us kd ks same all few room)
        (refl, b.0, b.1, upstream_back _ dst src u us all c, c.used)
