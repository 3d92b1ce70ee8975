-- ===== src/Dpd/Detector/Others.antt =====
-- What IsDuplicate of SmfDpdWindow on a packet of one flow leaves of the other flows.
use nrlsmf.Base.{
  ℕ, ◌≡◌, ◌≢◌, sym, ap, ◌∙◌, subst, inl, inr, true, false, Option, some, arith, Bool-cases,
  if◌then◌else◌,
}
use nrlsmf.Dpd.Tree.{KeyTree, TreeLaws}
use nrlsmf.Dpd.Mask.{SlidingMask}
use nrlsmf.Dpd.Links.{update, update_self, update-ne}
use nrlsmf.Dpd.Detector.{DpdWindow}
use nrlsmf.Dpd.Detector.Asked.{Asked, same, changed, added}

module _ (T : KeyTree) (tree : TreeLaws T) (M : SlidingMask) where
  open T use {Key, key, key_eq, find, insert}

  -- What `new` returns is not the address of a flow that is listed.
  abbrev pub IsFresh : (DpdWindow T M → Option ℕ) → Type 0
  IsFresh alloc =
      (d : DpdWindow T M) (j : Key) (x y : ℕ)
      → alloc d ≡ some x
      → find j d.flow_list.tree ≡ some y
      → x ≢ y

  -- The flow that is found has the key.
  abbrev pub IsNamed : DpdWindow T M → Type 0
  IsNamed d = (j : Key) (y : ℕ) → find j d.flow_list.tree ≡ some y → d.flow_list.flow_id y ≡ j

  module _ (alloc : DpdWindow T M → Option ℕ) (fresh : IsFresh alloc) (j : Key)
      (d e : DpdWindow T M) (named : IsNamed d) where
    pub Asked-IsNamed : Asked T tree M j (alloc d) d e → IsNamed e
    Asked-IsNamed (same h) = subst IsNamed (sym h) named
    Asked-IsNamed (changed x f _ _ t n _) =
        λ i y q. ap (λ g. g y) n ∙ named i y (ap (find i) (sym t) ∙ q)
    Asked-IsNamed (added x f none_yet a _ t n _) = λ i y q.
        let found : (if key_eq i j then some x else find i d.flow_list.tree) ≡ some y =
          sym (tree.find-insert i j x d.flow_list.tree none_yet) ∙ ap (find i) (sym t) ∙ q in
        elim (Bool-cases (key_eq i j)) [
          | inl h ↦
              let xy : x ≡ y =
                let p : some x ≡ some y =
                  ap (λ b. if b then some x else find i d.flow_list.tree) (sym h) ∙ found in
                cc in
              ap (λ g. g y) n
              ∙ ap (update d.flow_list.flow_id x j) (sym xy)
              ∙ update_self d.flow_list.flow_id j x
              ∙ sym ((tree.key_eq_iff i j).0 h)
          | inr h ↦
              let p : find i d.flow_list.tree ≡ some y =
                ap (λ b. if b then some x else find i d.flow_list.tree) (sym h) ∙ found in
              ap (λ g. g y) n
              ∙ update-ne d.flow_list.flow_id j x y (fresh d i x y a p)
              ∙ named i y p
        ]

    pub Asked-size : Asked T tree M j (alloc d) d e → e.window_size ≡ d.window_size
    Asked-size (same h) = ap (λ c. c.window_size) h
    Asked-size (changed x f _ s _ _ _) = s
    Asked-size (added x f _ _ s _ _ _) = s

    -- A packet of another flow leaves the flow of a key as it was.
    module _ (i : Key) (other : key_eq i j ≡ false) where
      pub Asked-find :
          Asked T tree M j (alloc d) d e → find i e.flow_list.tree ≡ find i d.flow_list.tree
      Asked-find (same h) = ap (λ c. find i c.flow_list.tree) h
      Asked-find (changed x f _ _ t _ _) = ap (find i) t
      Asked-find (added x f none_yet _ _ t _ _) =
          ap (find i) t
          ∙ tree.find-insert i j x d.flow_list.tree none_yet
          ∙ ap (λ b. if b then some x else find i d.flow_list.tree) other

      pub Asked-item :
          (y : ℕ)
          → find i d.flow_list.tree ≡ some y
          → Asked T tree M j (alloc d) d e
          → e.flow_list.item y ≡ d.flow_list.item y
      Asked-item y q (same h) = ap (λ c. c.flow_list.item y) h
      Asked-item y q (changed x f p _ _ _ m) =
          ap (λ g. g y) m
          ∙ update-ne d.flow_list.item f x y (λ xy.
            let ij : i ≡ j = sym (named i y q) ∙ ap d.flow_list.flow_id (sym xy) ∙ named j x p in
            let t : key_eq i j ≡ true = (tree.key_eq_iff i j).1 ij in ground (arith, t, other))
      Asked-item y q (added x f _ a _ _ _ m) =
          ap (λ g. g y) m ∙ update-ne d.flow_list.item f x y (fresh d i x y a q)
