-- ===== src/Elastic/AdvRead.antt =====
-- A whole ElasticAdv, read back.
use nrlsmf.Base.{ℕ, ◌+◌, ◌*◌, ◌<◌, ◌≤◌, ◌≡◌, refl, sym, ap, ap₂, ◌∙◌, Bool, true, ◌&&◌, some, arith}
use nrlsmf.Wire.{Address, Known, Packet, Laws}
use nrlsmf.Elastic.{address_type, address_at, set_dst_addr, set_src_addr}
use nrlsmf.Elastic.Adv.{
  adv_get_dst_addr, adv_set_dst_addr, adv_set_src_addr, adv_get_src_addr, get_ttl, get_hop_count,
  get_metric, get_adv_addr, offset_adv_addr,
}
use nrlsmf.Elastic.Flow.{words, address_at-found}
use nrlsmf.Elastic.RoundTrip.{Described, read_back, type_of, set_dst_addr-ToDst, dst_buffer_kept}
use nrlsmf.Elastic.Source.{set_src_addr-Described, src_buffer}
use nrlsmf.Elastic.AdvTrip.{ttl_at, hop_at, metric_at, adv_at}
use nrlsmf.Elastic.AdvBuild.{
  finish_adv, finished, s6, d6, ttl_byte, hop_byte, high_byte, low_byte, adv_bytes,
}

module _ (P : Packet) (laws : Laws P) where
  open P use {State, buffer_length, get_uint8}

  -- The fields behind the flow description.
  module _ (s : State) (dst src adv : Address) (ttl hops metric : ℕ) (known : Known adv)
      (same : adv.kind ≡ dst.kind) (d : Described P laws s dst src)
      (room : 12 + 12 * words dst.kind ≤ buffer_length s) (ht : ttl < 256) (hh : hops < 256)
      (hm : metric < 65536) where
    abbrev t : State
    t = s6 P laws s dst src adv ttl hops metric known same d room

    described : Described P laws t dst src
    described = d6 P laws s dst src adv ttl hops metric known same d room

    abbrev end_at : ℕ
    end_at = 8 + 8 * words dst.kind

    at_2 : 2 * (5 + 4 * words dst.kind) ≡ end_at + 2
    at_2 = omega arith

    at_3 : 2 * (5 + 4 * words dst.kind) + 1 ≡ end_at + 3
    at_3 = omega arith

    at_4 : 4 * offset_adv_addr P t ≡ end_at + 4
    at_4 = omega (arith, adv_at P laws dst src t described)

    trailer_back :
        (get_ttl P t ≡ ttl)
        × (get_hop_count P t ≡ hops)
        × (get_metric P t ≡ metric)
        × (get_adv_addr P t ≡ some adv)
    unfolding get_ttl get_hop_count get_metric get_adv_addr
    trailer_back = (
      ap (λ (i : ℕ). get_uint8 i t) (ttl_at P laws dst src t described)
          ∙ ttl_byte P laws s dst src adv ttl hops metric known same d room
          ∙ omega (arith, ht),
      ap (λ (i : ℕ). get_uint8 i t) (hop_at P laws dst src t described)
          ∙ hop_byte P laws s dst src adv ttl hops metric known same d room
          ∙ omega (arith, hh),
      ap (λ (i : ℕ). P.get_word16 i t) (metric_at P laws dst src t described)
          ∙ laws.get_word16_is (5 + 4 * words dst.kind) t
          ∙ ap₂ (λ (x y : ℕ). get_uint8 x t * 256 + get_uint8 y t) at_2 at_3
          ∙ omega (
            arith,
            high_byte P laws s dst src adv ttl hops metric known same d room,
            low_byte P laws s dst src adv ttl hops metric known same d room,
            hm,
          ),
      ap₂ (λ (k o : ℕ). address_at P k o t)
            (type_of P laws t dst described.to_dst ∙ ap address_type (sym same)) at_4
          ∙ address_at-found P laws adv (end_at + 4) t known
              (adv_bytes P laws s dst src adv ttl hops metric known same d room),
    )

  -- SetDstAddr, SetSrcAddr, SetTTL, SetHopCount, SetMetric and SetAdvAddr in order.
  unfoldable pub build_adv : Address → Address → ℕ → ℕ → ℕ → Address → State → Bool × State
  build_adv dst src ttl hops metric adv s =
      let d = adv_set_dst_addr P dst s in
      let r = adv_set_src_addr P src d.1 in
      let f = finish_adv P laws ttl hops metric adv r.1 in (d.0 && (r.0 && f.0), f.1)

  -- An ElasticAdv that is built in a buffer with room for it, from a destination, a source and
  -- an advertiser of one known type, a time to live and a hop count below 256 and a metric
  -- field below 65536, is built with success, and each getter returns what was set. The packet
  -- buffer keeps its laws.
  pub adv_round_trip :
      (s : State) (dst src adv : Address) (ttl hops metric : ℕ)
      → Known dst
      → Known src
      → Known adv
      → src.kind ≡ dst.kind
      → adv.kind ≡ dst.kind
      → ttl < 256
      → hops < 256
      → metric < 65536
      → 12 + 12 * words dst.kind ≤ buffer_length s
      → let r = build_adv dst src ttl hops metric adv s in
        (r.0 ≡ true)
        × (adv_get_dst_addr P r.1 ≡ some dst)
        × (adv_get_src_addr P r.1 ≡ some src)
        × (get_ttl P r.1 ≡ ttl)
        × (get_hop_count P r.1 ≡ hops)
        × (get_metric P r.1 ≡ metric)
        × (get_adv_addr P r.1 ≡ some adv)
  unfolding build_adv adv_set_dst_addr adv_set_src_addr adv_get_dst_addr get_ttl get_hop_count
      get_metric get_adv_addr
  adv_round_trip s dst src adv ttl hops metric kd ks ka same same' ht hh hm room =
      let dd = set_dst_addr-ToDst P laws s dst kd (omega (arith, room)) in
      let s1 = (set_dst_addr P dst s).1 in
      let rr = set_src_addr-Described P laws s1 dst src ks same dd.1 in
      let s2 = (set_src_addr P src s1).1 in
      let room2 : 12 + 12 * words dst.kind ≤ buffer_length s2 = omega (
        arith,
        room,
        src_buffer P laws s1 dst src ks same dd.1,
        dst_buffer_kept P laws s dst kd (omega (arith, room)),
      ) in
      let f = finished P laws s2 dst src adv ttl hops metric ka same' rr.1 room2 in
      let b =
        read_back P laws _ dst src kd ks same
          (d6 P laws s2 dst src adv ttl hops metric ka same' rr.1 room2) in
      let g = trailer_back s2 dst src adv ttl hops metric ka same' rr.1 room2 ht hh hm in
      simp (dd.0, rr.0, f) (refl, b.0, b.2, g.0, g.1, g.2, g.3)
