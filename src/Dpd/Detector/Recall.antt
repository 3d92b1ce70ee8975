-- ===== src/Dpd/Detector/Recall.antt =====
-- What SmfDpdWindow remembers of one packet, whatever packets arrive that lie near it or are of
-- other flows.
use nrlsmf.Base.{
  ℕ, suc, ◌^◌, ◌<◌, ◌≡◌, refl, sym, ap, ◌∙◌, subst, ◌⊎◌, inl, inr, Bool, true, false, ◌&&◌, Option,
  none, some, List, arith, Bool-cases, Option-cases, if◌then◌else◌, ltb, ◌==◌,
}
use nrlsmf.Dpd.Ring.{ahead}
use nrlsmf.Dpd.Tree.{KeyTree, TreeLaws}
use nrlsmf.Dpd.Mask.{SlidingMask, Laws}
use nrlsmf.Dpd.Window.Arc.{InArc}
use nrlsmf.Dpd.Window.Marks.{Models}
use nrlsmf.Dpd.Window
use nrlsmf.Dpd.Detector.{id_value, DpdWindow, WindowFlow, dpd_is_duplicate}
use nrlsmf.Dpd.Detector.Asked.{dpd_is_duplicate-Asked}
use nrlsmf.Dpd.Detector.Others.{IsFresh, Asked-IsNamed, Asked-size, Asked-find, Asked-item}
use nrlsmf.Dpd.Detector.Memory.{Ready, Kept, is_known, dpd_is_duplicate-Ready, keeps_known}

-- The packet is of another flow than `fid`, or has a number of `k + 1` bits among the `n` from `b`
-- on.
abbrev pub is_near : KeyTree → ℕ → ℕ → ℕ → List ℕ → ℕ → List ℕ → ℕ → List ℕ → ℕ → Bool
is_near T k b n fid fbits flow flow_bits pkt bits =
    if T.key_eq (T.key fid fbits) (T.key flow flow_bits)
    then bits == suc k
      && (ltb (id_value pkt (suc k)) (2 ^ suc k) && ltb (ahead k (id_value pkt (suc k)) b) n)
    else true

module _ (T : KeyTree) (tree : TreeLaws T) (M : SlidingMask) (laws : Laws M) (k b n : ℕ) where
  open T use {Key, key, key_eq, find}

  -- Only the key of the flow counts.
  rekey-Kept :
      (fid : List ℕ) (fbits : ℕ) (flow : List ℕ) (bits : ℕ) (d : DpdWindow T M)
      → key fid fbits ≡ key flow bits
      → Kept T tree M laws k b fid fbits n d
      → Kept T tree M laws k b flow bits n d
  rekey-Kept fid fbits flow bits d e t = record {
    n0 = t.n0;
    hk = t.hk;
    hn = t.hn;
    ideal = t.ideal;
    last = t.last;
    tracks = record {
      at = t.tracks.at;
      found = ap (λ i. find i d.flow_list.tree) (sym e) ∙ t.tracks.found;
      models = t.tracks.models;
    };
    held = t.held;
  }

  rekey_flow :
      (fid : List ℕ) (fbits : ℕ) (flow : List ℕ) (bits : ℕ) (d : DpdWindow T M)
      → key fid fbits ≡ key flow bits
      → (find (key fid fbits) d.flow_list.tree ≡ none) ⊎ Kept T tree M laws k b fid fbits n d
      → (find (key flow bits) d.flow_list.tree ≡ none) ⊎ Kept T tree M laws k b flow bits n d
  rekey_flow fid fbits flow bits d e (inl h) = inl (ap (λ i. find i d.flow_list.tree) (sym e) ∙ h)
  rekey_flow fid fbits flow bits d e (inr t) = inr (rekey-Kept fid fbits flow bits d e t)

  pub rekey-Ready :
      (fid : List ℕ) (fbits : ℕ) (flow : List ℕ) (bits : ℕ) (d : DpdWindow T M)
      → key fid fbits ≡ key flow bits
      → Ready T tree M laws k b fid fbits n d
      → Ready T tree M laws k b flow bits n d
  rekey-Ready fid fbits flow bits d e r = record {
    sized = r.sized;
    named = r.named;
    flow = rekey_flow fid fbits flow bits d e r.flow;
  }

  rekey_known :
      (fid : List ℕ) (fbits : ℕ) (flow : List ℕ) (bits q : ℕ) (d : DpdWindow T M)
      → key fid fbits ≡ key flow bits
      → is_known T tree M laws k b fid fbits q d ≡ is_known T tree M laws k b flow bits q d
  unfolding is_known
  rekey_known fid fbits flow bits q d e =
      ap
        (λ i. elim (find i d.flow_list.tree) [
          | none ↦ false
          | some x ↦ (Window.is_duplicate M q (d.flow_list.item x).window).0
        ])
        e

  module _ (fid : List ℕ) (fbits : ℕ) (alloc : DpdWindow T M → Option ℕ)
      (fresh : IsFresh T tree M alloc) (now : ℕ) (flow : List ℕ) (flow_bits : ℕ) (pkt : List ℕ)
      (bits : ℕ) (d : DpdWindow T M) where
    abbrev next : DpdWindow T M
    next = (dpd_is_duplicate T M now flow flow_bits pkt bits (alloc d) d).1

    -- A packet of another flow.
    module _ (other : key_eq (key fid fbits) (key flow flow_bits) ≡ false)
        (r : Ready T tree M laws k b fid fbits n d) where
      same_find : find (key fid fbits) next.flow_list.tree ≡ find (key fid fbits) d.flow_list.tree
      same_find =
          Asked-find T tree M alloc fresh (key flow flow_bits) d next r.named (key fid fbits) other
            (dpd_is_duplicate-Asked T tree M now flow flow_bits pkt bits d (alloc d))

      same_item :
          (x : ℕ)
          → find (key fid fbits) d.flow_list.tree ≡ some x
          → next.flow_list.item x ≡ d.flow_list.item x
      same_item x e =
          Asked-item T tree M alloc fresh (key flow flow_bits) d next r.named (key fid fbits) other
            x e (dpd_is_duplicate-Asked T tree M now flow flow_bits pkt bits d (alloc d))

      same_flow :
          (find (key fid fbits) d.flow_list.tree ≡ none) ⊎ Kept T tree M laws k b fid fbits n d
          → (find (key fid fbits) next.flow_list.tree ≡ none)
            ⊎ Kept T tree M laws k b fid fbits n next
      same_flow (inl e) = inl (same_find ∙ e)
      same_flow (inr t) = inr (record {
        n0 = t.n0;
        hk = t.hk;
        hn = t.hn;
        ideal = t.ideal;
        last = t.last;
        tracks = record {
          at = t.tracks.at;
          found = same_find ∙ t.tracks.found;
          models =
              subst
                (λ (f : WindowFlow T M). Models M laws k n t.n0 t.hk t.hn f.window.bitmask t.ideal)
                (sym (same_item t.tracks.at t.tracks.found)) t.tracks.models;
        };
        held = t.held;
      })

      other-Ready : Ready T tree M laws k b fid fbits n next
      other-Ready =
          let a = dpd_is_duplicate-Asked T tree M now flow flow_bits pkt bits d (alloc d) in
          record {
            sized = Asked-size T tree M alloc fresh (key flow flow_bits) d next r.named a ∙ r.sized;
            named = Asked-IsNamed T tree M alloc fresh (key flow flow_bits) d next r.named a;
            flow = same_flow r.flow;
          }

      other_known :
          (q : ℕ)
          → is_known T tree M laws k b fid fbits q next ≡ is_known T tree M laws k b fid fbits q d
      unfolding is_known
      other_known q = elim (Option-cases (find (key fid fbits) d.flow_list.tree)) [
        | inl e ↦ rw (same_find ∙ e, e, is_known) refl
        | inr (x, e) ↦
            rw (same_find ∙ e, e, is_known)
              (ap (λ (f : WindowFlow T M). (Window.is_duplicate M q f.window).0) (same_item x e))
      ]

    -- A packet of the flow.
    module _ (n0 : 0 < n) (hs : n < 2 ^ 31) (hb : b < 2 ^ suc k)
        (near : is_near T k b n fid fbits flow flow_bits pkt bits ≡ true)
        (r : Ready T tree M laws k b fid fbits n d) where
      module _ (one : key_eq (key fid fbits) (key flow flow_bits) ≡ true) where
        same_key : key fid fbits ≡ key flow flow_bits
        same_key = (tree.key_eq_iff (key fid fbits) (key flow flow_bits)).0 one

        -- What the test says of it.
        tests :
            (bits == suc k
              && (ltb (id_value pkt (suc k)) (2 ^ suc k)
                  && ltb (ahead k (id_value pkt (suc k)) b) n))
            ≡ true
        tests = ground (arith, one, near)

        width : suc k ≡ bits
        width = ground (arith, tests)

        arc : InArc k n b (id_value pkt (suc k))
        arc = record { small = ground (arith, tests); near = ground (arith, tests) }

        own-Ready : Ready T tree M laws k b fid fbits n next
        own-Ready = rekey-Ready flow flow_bits fid fbits next (sym same_key) (
            subst
              (λ (w : ℕ).
                Ready T tree M laws k b flow flow_bits n
                  (dpd_is_duplicate T M now flow flow_bits pkt w (alloc d) d).1)
              width
              (dpd_is_duplicate-Ready T tree M laws k b flow flow_bits n n0 hs hb alloc now pkt d
                arc fresh (rekey-Ready fid fbits flow flow_bits d same_key r)))

        own_keeps :
            (q : ℕ)
            → InArc k n b q
            → is_known T tree M laws k b fid fbits q d ≡ true
            → is_known T tree M laws k b fid fbits q next ≡ true
        own_keeps q hq old =
            rekey_known fid fbits flow flow_bits q next same_key
            ∙ subst
                (λ (w : ℕ).
                  is_known T tree M laws k b flow flow_bits q
                    (dpd_is_duplicate T M now flow flow_bits pkt w (alloc d) d).1
                  ≡ true)
                width
                (keeps_known T tree M laws k b flow flow_bits n n0 hs hb alloc now pkt d arc q hq
                  (rekey-Ready fid fbits flow flow_bits d same_key r)
                  (sym (rekey_known fid fbits flow flow_bits q d same_key) ∙ old))

      pub near-Ready : Ready T tree M laws k b fid fbits n next
      near-Ready = elim (Bool-cases (key_eq (key fid fbits) (key flow flow_bits))) [
        | inl one ↦ own-Ready one
        | inr other ↦ other-Ready other r
      ]

      pub near_keeps :
          (q : ℕ)
          → InArc k n b q
          → is_known T tree M laws k b fid fbits q d ≡ true
          → is_known T tree M laws k b fid fbits q next ≡ true
      near_keeps q hq old = elim (Bool-cases (key_eq (key fid fbits) (key flow flow_bits))) [
        | inl one ↦ own_keeps one q hq old
        | inr other ↦ other_known other r q ∙ old
      ]
