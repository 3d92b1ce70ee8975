-- ===== src/Forward/Window.antt =====
-- Smf::ProcessPacket on interfaces whose duplicate detectors are SmfDpdWindow objects, as
-- Smf::Interface::Init makes them (src/common/smf.cpp).
use nrlsmf.Base.{
  ℕ, suc, ◌^◌, ◌≤◌, ◌<◌, ◌≡◌, refl, sym, subst, inl, Bool, true, false, ◌&&◌, Option, List, arith,
  ltb, ◌==◌,
}
use nrlsmf.Dpd.Ring.{ahead}
use nrlsmf.Dpd.Tree.{KeyTree, TreeLaws}
use nrlsmf.Dpd.Mask.{SlidingMask, Laws}
use nrlsmf.Dpd.Flows.{no_flows}
use nrlsmf.Dpd.Window.Arc.{InArc}
use nrlsmf.Dpd.Detector.{id_value, DpdWindow, dpd_init, dpd_is_duplicate}
use nrlsmf.Dpd.Detector.Others.{IsFresh}
use nrlsmf.Dpd.Detector.Memory.{Ready, is_known, learns}
use nrlsmf.Dpd.Detector.Recall.{is_near, near-Ready, near_keeps}
use nrlsmf.Forward.Packet.{Ident, Config}
use nrlsmf.Forward.Plane.{Detector}
use nrlsmf.Forward.Process.{Smf}
use nrlsmf.Forward.Memory.{Remembers, detector_of}
use nrlsmf.Forward.Delivery.{Call, times_sent, all_pass, sent_once}

-- SmfDpdWindow as the `dup_detector` of an interface. `alloc` is what `new Flow` returns, which
-- depends on what is in use.
abbrev pub window_detector : (T : KeyTree) (M : SlidingMask) → (DpdWindow T M → Option ℕ) → Detector
window_detector T M alloc = record {
  State = DpdWindow T M;
  is_duplicate =
      λ now id d. dpd_is_duplicate T M now id.flow id.flow_bits id.pkt id.pkt_bits (alloc d) d;
}

-- The ids `j` are of another flow than `id`, or have a number of `k + 1` bits among the `n` from
-- `b` on.
abbrev pub is_near_ident : KeyTree → ℕ → ℕ → ℕ → Ident → Ident → Bool
is_near_ident T k b n id j =
    is_near T k b n id.flow id.flow_bits j.flow j.flow_bits j.pkt j.pkt_bits

module _ (T : KeyTree) (tree : TreeLaws T) (M : SlidingMask) (laws : Laws M)
    (alloc : DpdWindow T M → Option ℕ) (fresh : IsFresh T tree M alloc) (k b n : ℕ) (n0 : 0 < n)
    (hs : n < 2 ^ 31) (hb : b < 2 ^ suc k) (id : Ident)
    (own : is_near_ident T k b n id id ≡ true) where
  -- What the packet's own number is.
  tests :
      (id.pkt_bits == suc k
        && (ltb (id_value id.pkt (suc k)) (2 ^ suc k)
            && ltb (ahead k (id_value id.pkt (suc k)) b) n))
      ≡ true
  tests =
      let same =
        (tree.key_eq_iff (T.key id.flow id.flow_bits) (T.key id.flow id.flow_bits)).1 refl in
      ground (arith, same, own)

  width : suc k ≡ id.pkt_bits
  width = ground (arith, tests)

  arc : InArc k n b (id_value id.pkt (suc k))
  arc = record { small = ground (arith, tests); near = ground (arith, tests) }

  abbrev knows : DpdWindow T M → Bool
  knows = is_known T tree M laws k b id.flow id.flow_bits (id_value id.pkt (suc k))

  abbrev window_detector-Remembers :
      Remembers (window_detector T M alloc) id (is_near_ident T k b n id)
  window_detector-Remembers = record {
    Ready = Ready T tree M laws k b id.flow id.flow_bits n;
    known = knows;
    stays = λ now j d near r.
        near-Ready T tree M laws k b n id.flow id.flow_bits alloc fresh now j.flow j.flow_bits j.pkt
          j.pkt_bits d n0 hs hb near r;
    keeps = λ now j d near r old.
        near_keeps T tree M laws k b n id.flow id.flow_bits alloc fresh now j.flow j.flow_bits j.pkt
          j.pkt_bits d n0 hs hb near r (id_value id.pkt (suc k)) arc old;
    learns = λ now d r.
        subst
          (λ (w : ℕ).
            let a = dpd_is_duplicate T M now id.flow id.flow_bits id.pkt w (alloc d) d in
            a.0 ≡ false → (knows d ≡ false) × (knows a.1 ≡ true))
          width (learns T tree M laws k b id.flow id.flow_bits n n0 hs hb alloc now id.pkt d arc r);
  }

  dpd_init-Ready :
      (past : ℕ) (d : DpdWindow T M)
      → n ≤ past
      → Ready T tree M laws k b id.flow id.flow_bits n (dpd_init T M n past d).1
  unfolding dpd_init no_flows
  dpd_init-Ready past d h =
      let e : ltb past n ≡ false = ground (arith, h) in
      let none_yet = tree.find-empty in
      rw e (record {
        sized = refl;
        named = λ j y q. absurd (ground (arith, q, none_yet j));
        flow = inl (none_yet (T.key id.flow id.flow_bits));
      })

  -- Let the duplicate detectors of the interfaces be SmfDpdWindow objects, that of one
  -- interface as Init leaves it, for windows of `n` numbers with `0 < n < 2 ^ 31` and `n` at
  -- most `window_past_max`, and take any calls of ProcessPacket on IPv4 packets, on whatever
  -- interfaces they arrive, without pruning between them. If each packet that gets ids is of
  -- another flow than the flow id of `id`, or has a number of `k + 1` bits among the `n`
  -- consecutive ones from `b` on, around the end of the numbers as well, and `id` itself has
  -- such a number, then packets of the ids `id` are put into `dstIfArray` at most once in all
  -- for that interface. The key tree and the sliding mask keep their laws, and a new flow gets
  -- no address of a listed one.
  pub window_forwards_once :
      (c : Config) (x past : ℕ) (d : DpdWindow T M) (ks : List (Call (window_detector T M alloc) T))
      (s : Smf (window_detector T M alloc) T)
      → n ≤ past
      → detector_of (window_detector T M alloc) x s.plane ≡ (dpd_init T M n past d).1
      → all_pass (window_detector T M alloc) T c (is_near_ident T k b n id) ks s ≡ true
      → times_sent (window_detector T M alloc) T c x id ks s ≤ 1
  window_forwards_once c x past d ks s h start near =
      sent_once (window_detector T M alloc) T c x id (is_near_ident T k b n id)
        window_detector-Remembers ks s near
        (subst (Ready T tree M laws k b id.flow id.flow_bits n) (sym start)
          (dpd_init-Ready past d h))
