-- ===== src/Dpd/Detector/Verdicts.antt =====
-- What SmfDpdWindow says of a packet: the verdict of the ideal window of the packet's flow.
use nrlsmf.Base.{
  ℕ, suc, ◌^◌, ◌≤◌, ◌<◌, ◌≡◌, refl, sym, ap, subst, ◌∙◌, inl, inr, Bool, true, false, Option, none,
  some, List, arith, ltb, ◌==◌, ==_iff, if◌then◌else◌, Bool-cases,
}
use nrlsmf.Dpd.Tree.{KeyTree, TreeLaws}
use nrlsmf.Dpd.Mask.{SlidingMask, Laws}
use nrlsmf.Dpd.Links.{update, update_self}
use nrlsmf.Dpd.Flows.{flow_init, set_item, find_flow, append, to_tail}
use nrlsmf.Dpd.Window.Ideal.{Ideal, receive}
use nrlsmf.Dpd.Window.Marks.{Models}
use nrlsmf.Dpd.Window.Refine.{is_duplicate-Refines}
use nrlsmf.Dpd.Window.Stream.{empty, init_models, init_bounds, range_mask_lem}
use nrlsmf.Dpd.Window.{Window, window_init}
use nrlsmf.Dpd.Window
use nrlsmf.Dpd.Detector.{
  id_value, id_mask, WindowFlow, DpdWindow, with_list, known_flow, new_flow, dpd_is_duplicate,
}

module _ (T : KeyTree) (tree : TreeLaws T) (M : SlidingMask) (laws : Laws M) where
  open T use {find, key}

  -- The flow of the id `fid` is at `x`, and its window, over numbers of `k + 1` bits, holds `v`.
  pub record Tracks (d : DpdWindow T M) (fid : List ℕ) (fbits k n : ℕ) (n0 : 0 < n) (hk : k ≤ 31)
      (hn : n ≤ 2 ^ k) (v : Ideal) : Type 0 where
    pub at : ℕ
    pub found : find (key fid fbits) d.flow_list.tree ≡ some at
    pub models : Models M laws k n n0 hk hn (d.flow_list.item at).window.bitmask v

  module _ (d : DpdWindow T M) (fid : List ℕ) (fbits k n : ℕ) (n0 : 0 < n) (hk : k ≤ 31)
      (hn : n ≤ 2 ^ k) (hs : n < 2 ^ 31) (now : ℕ) (pid : List ℕ)
      (fits : id_value pid (suc k) < 2 ^ suc k) where
    abbrev seq : ℕ
    seq = id_value pid (suc k)

    small_id : ltb 32 (suc k) ≡ false
    small_id = ground (arith, hk)

    -- The branch of IsDuplicate for a flow that is there.
    to_known :
        (x : ℕ) (alloc : Option ℕ)
        → find (key fid fbits) d.flow_list.tree ≡ some x
        → dpd_is_duplicate T M now fid fbits pid (suc k) alloc d
          ≡ known_flow T M now x seq (suc k) d
    to_known x alloc e = unfold dpd_is_duplicate find_flow in rw (small_id, e, dpd_is_duplicate)

    to_new :
        (x : ℕ)
        → find (key fid fbits) d.flow_list.tree ≡ none
        → dpd_is_duplicate T M now fid fbits pid (suc k) (some x) d
          ≡ new_flow T M now x fid fbits seq (suc k) d
    to_new x e = unfold dpd_is_duplicate find_flow in rw (small_id, e, dpd_is_duplicate)

    abbrev Follows : Bool × DpdWindow T M → Ideal → Type 0
    Follows r v =
        (r.0 ≡ (receive k n seq v).0) × Tracks r.1 fid fbits k n n0 hk hn (receive k n seq v).1

    module _ (x : ℕ) (v : Ideal) (e : find (key fid fbits) d.flow_list.tree ≡ some x)
        (m : Models M laws k n n0 hk hn (d.flow_list.item x).window.bitmask v) where
      step : (Window.is_duplicate M seq (d.flow_list.item x).window).0 ≡ (receive k n seq v).0
      step = (is_duplicate-Refines M laws k n n0 hk hn hs seq _ v fits m).0

      after :
          Models M laws k n n0 hk hn
            (Window.is_duplicate M seq (d.flow_list.item x).window).1.bitmask
            (receive k n seq v).1
      after = (is_duplicate-Refines M laws k n n0 hk hn hs seq _ v fits m).1

      same_mask : (id_mask (suc k) == M.range_mask (d.flow_list.item x).window.bitmask) ≡ true
      unfolding id_mask
      same_mask =
          (==_iff _ _).1 (range_mask_lem (suc k) (omega arith) (omega arith) ∙ sym m.shape.mask_is)

      tracks :
          (f : WindowFlow T M) (d' : DpdWindow T M)
          → f.window ≡ (Window.is_duplicate M seq (d.flow_list.item x).window).1
          → d'.flow_list.item ≡ update d.flow_list.item x f
          → d'.flow_list.tree ≡ d.flow_list.tree
          → Tracks d' fid fbits k n n0 hk hn (receive k n seq v).1
      tracks f d' w i t = record {
        at = x;
        found = ap (find (key fid fbits)) t ∙ e;
        models =
            subst
              (λ (g : WindowFlow T M).
                Models M laws k n n0 hk hn g.window.bitmask (receive k n seq v).1)
              (sym (ap (λ h. h x) i ∙ update_self d.flow_list.item f x))
              (subst (λ (u : Window M). Models M laws k n n0 hk hn u.bitmask (receive k n seq v).1)
                (sym w) after);
      }

      known_flow-Follows : Follows (known_flow T M now x seq (suc k) d) v
      unfolding known_flow set_item to_tail
      known_flow-Follows =
          elim (Bool-cases (Window.is_duplicate M seq (d.flow_list.item x).window).0) [
            | inl t ↦ rw (same_mask, t) (sym t ∙ step, tracks _ _ refl refl refl)
            | inr t ↦ rw (same_mask, t) (sym t ∙ step, tracks _ _ refl refl refl)
          ]

  -- If the key tree and the sliding mask keep their laws, and the flow of an id is listed with
  -- a window that holds an ideal window `v` of `n` numbers of `k + 1` bits, with `0 < n < 2 ^
  -- 31`, `n` at most `2 ^ k` and `k` at most 31, then IsDuplicate on a number of `k + 1` bits
  -- returns the verdict of `v` on it, and afterwards the flow is listed still and its window
  -- holds `v` after the number.
  pub known_follows :
      (d : DpdWindow T M) (fid : List ℕ) (fbits k n : ℕ) (n0 : 0 < n) (hk : k ≤ 31) (hn : n ≤ 2 ^ k)
      (now : ℕ) (pid : List ℕ) (alloc : Option ℕ) (v : Ideal)
      → n < 2 ^ 31
      → id_value pid (suc k) < 2 ^ suc k
      → Tracks d fid fbits k n n0 hk hn v
      → let r = dpd_is_duplicate T M now fid fbits pid (suc k) alloc d in
        let i = receive k n (id_value pid (suc k)) v in
        (r.0 ≡ i.0) × Tracks r.1 fid fbits k n n0 hk hn i.1
  known_follows d fid fbits k n n0 hk hn now pid alloc v hs fits t =
      rw (to_known d fid fbits k n n0 hk hn hs now pid fits t.at alloc t.found)
        (known_flow-Follows d fid fbits k n n0 hk hn hs now pid fits t.at v t.found t.models)

  module _ (d : DpdWindow T M) (fid : List ℕ) (fbits k now x : ℕ) (pid : List ℕ) (w : Window M)
      (n0 : 0 < d.window_size) (hs : d.window_size < 2 ^ 31)
      (fits : id_value pid (suc k) < 2 ^ suc k)
      (made : window_init M (suc k) d.window_size d.window_past_max ≡ some w)
      (none_yet : find (key fid fbits) d.flow_list.tree ≡ none) where
    abbrev pub k-le : k ≤ 31
    k-le = (init_bounds M k d.window_size d.window_past_max w made).0

    abbrev pub size-le : d.window_size ≤ 2 ^ k
    size-le = (init_bounds M k d.window_size d.window_past_max w made).1

    abbrev first : WindowFlow T M
    first = record {
      window = (Window.is_duplicate M (id_value pid (suc k)) w).1;
      update_time = now;
    }

    own_id : (flow_init T x fid fbits d.flow_list).flow_id x ≡ key fid fbits
    own_id = unfold flow_init in update_self d.flow_list.flow_id _ x ∙ tree.key-take fid fbits

    listed : find (key fid fbits) (append T x (flow_init T x fid fbits d.flow_list)).tree ≡ some x
    unfolding flow_init append
    listed = rw own_id (
        tree.find-insert (key fid fbits) (key fid fbits) x d.flow_list.tree none_yet
        ∙ ap (λ b. if b then some x else find (key fid fbits) d.flow_list.tree)
            ((tree.key_eq_iff (key fid fbits) (key fid fbits)).1 refl))

    new_is : new_flow T M now x fid fbits (id_value pid (suc k)) (suc k) d ≡ (
      false,
      with_list T M d (set_item T x first (append T x (flow_init T x fid fbits d.flow_list))),
    )
    new_is = unfold new_flow in rw (made, new_flow) refl

    Tracks-first :
        Tracks
          (with_list T M d (set_item T x first (append T x (flow_init T x fid fbits d.flow_list))))
          fid
          fbits
          k
          d.window_size
          n0
          k-le
          size-le
          (receive k d.window_size (id_value pid (suc k)) empty).1
    unfolding set_item append flow_init
    Tracks-first = record {
      at = x;
      found = listed;
      models =
          subst
            (λ (g : WindowFlow T M).
              Models M laws k d.window_size n0 k-le size-le g.window.bitmask
                (receive k d.window_size (id_value pid (suc k)) empty).1)
            (sym (update_self d.flow_list.item first x))
            (is_duplicate-Refines M laws k d.window_size n0 k-le size-le hs (id_value pid (suc k)) w
              empty fits
              (init_models M laws k d.window_size n0 k-le size-le hs d.window_past_max w made)).1;
    }

    -- If the key tree and the sliding mask keep their laws, no flow has the id, there is memory
    -- for one, and Init accepts the sizes of the detector for numbers of `k + 1` bits, with a
    -- window of at least 1 and less than `2 ^ 31` numbers, then IsDuplicate on a number of `k +
    -- 1` bits reports no duplicate, and afterwards the flow is listed with a window that holds
    -- the ideal window that has received the number.
    pub first_follows :
        let r = dpd_is_duplicate T M now fid fbits pid (suc k) (some x) d in
        (r.0 ≡ false)
        × Tracks r.1 fid fbits k d.window_size n0 k-le size-le
            (receive k d.window_size (id_value pid (suc k)) empty).1
    first_follows =
        rw (to_new d fid fbits k d.window_size n0 k-le size-le hs now pid fits x none_yet ∙ new_is)
          (refl, Tracks-first)
