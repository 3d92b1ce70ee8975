-- ===== src/Dpd/Flows/Prune.antt =====
-- The pruning loop of SmfDpdWindow::Prune and SmfSequenceMgr::Prune: from the head of the list,
-- flows are removed until one is not stale.
use nrlsmf.Base.{
  ℕ, zero, suc, ◌<◌, ◌≤◌, ◌≡◌, refl, sym, ap, ◌∙◌, inl, inr, Bool, false, Option, none, some, List,
  [], ◌∷◌, ◌++◌, arith, if◌then◌else◌, Bool-cases, length, ltb, sub32, word, All, All-remove,
  All-snoc,
}
use nrlsmf.Dpd.Tree.{KeyTree, TreeLaws}
use nrlsmf.Dpd.Links.{update, update-ne}
use nrlsmf.Dpd.Links.Seg.{first, Apart}
use nrlsmf.Dpd.Flows.Laws.{Lists, remove_flow-Lists}
use nrlsmf.Dpd.Flows.{Flows, remove_flow}

-- GetAge: UINT32 subtraction.
abbrev pub age : ℕ → ℕ → ℕ
age now time = sub32 now time

module _ {A : Type 0} (time : A → ℕ) (now age_max : ℕ) where
  abbrev pub is_stale : A → Bool
  is_stale a = ltb age_max (age now (time a))

module _ (T : KeyTree) {A : Type 0} (time : A → ℕ) (now age_max : ℕ) where
  -- The iterator holds the next flow already when the present one is removed.
  unfoldable pub prune_from : ℕ → Option ℕ → Flows T A → Flows T A
  prune_from zero next f = f
  prune_from (suc fuel) next f = elim next [
    | none ↦ f
    | some x ↦
        let rest = prune_from fuel (f.links.next x) (remove_flow T x f) in
        if is_stale time now age_max (f.item x) then rest else f
  ]

  -- No more rounds than flows.
  unfoldable pub prune_list : Flows T A → Flows T A
  prune_list f = prune_from f.count f.links.head f

module _ {A : Type 0} (time : A → ℕ) (now age_max : ℕ) (item : ℕ → A) where
  abbrev is_old : ℕ → Bool
  is_old x = is_stale time now age_max (item x)

  -- What is left: from the first flow that is not stale on.
  abbrev pub from_fresh : List ℕ → List ℕ
  from_fresh [] = []
  from_fresh (x ∷ xs) = if is_stale time now age_max (item x) then from_fresh xs else x ∷ xs

  -- The flows that are not stale.
  abbrev pub fresh : List ℕ → List ℕ
  fresh [] = []
  fresh (x ∷ xs) = if is_stale time now age_max (item x) then fresh xs else x ∷ fresh xs

  abbrev pub age_of : ℕ → ℕ
  age_of x = age now (time (item x))

  -- The flows stand in the order of their last updates, the oldest first.
  abbrev pub Aged : List ℕ → Type 0
  Aged [] = Unit {0}
  Aged (x ∷ xs) = All (λ y. age_of y ≤ age_of x) xs × Aged xs

  fresh-All : (xs : List ℕ) → All (λ y. is_old y ≡ false) xs → fresh xs ≡ xs
  fresh-All [] a = refl
  fresh-All (x ∷ xs) a = rw a.0 (ap (λ (l : List ℕ). x ∷ l) (fresh-All xs a.1))

  not_old :
      (x : ℕ) (xs : List ℕ)
      → is_old x ≡ false
      → All (λ y. age_of y ≤ age_of x) xs
      → All (λ y. is_old y ≡ false) xs
  not_old x [] f a = tt
  not_old x (y ∷ xs) f a = (ground (arith, f, a.0), not_old x xs f a.1)

  pub from_fresh-eq-fresh : (xs : List ℕ) → Aged xs → from_fresh xs ≡ fresh xs
  from_fresh-eq-fresh [] a = refl
  from_fresh-eq-fresh (x ∷ xs) a = elim (Bool-cases (is_old x)) [
    | inl t ↦ rw t (from_fresh-eq-fresh xs a.1)
    | inr f ↦
        ap (λ b. if b then from_fresh xs else x ∷ xs) f
        ∙ sym (fresh-All (x ∷ xs) (f, not_old x xs f a.0))
  ]

  pub Aged-remove : (x : ℕ) (ys zs : List ℕ) → Aged (ys ++ (x ∷ zs)) → Aged (ys ++ zs)
  Aged-remove x [] zs a = a.1
  Aged-remove x (y ∷ ys) zs a = (All-remove _ x ys zs a.0, Aged-remove x ys zs a.1)

  -- A flow that was updated just now stands last.
  pub Aged-snoc : (x : ℕ) (xs : List ℕ) → age_of x ≡ 0 → Aged xs → Aged (xs ++ (x ∷ []))
  Aged-snoc x [] e a = (tt, tt)
  Aged-snoc x (y ∷ xs) e a = (All-snoc _ x xs a.0 (omega arith), Aged-snoc x xs e a.1)

-- A write to a flow outside the list changes no age in it.
pub Aged-frame :
    {A : Type 0} (time : A → ℕ) (now age_max : ℕ) (item : ℕ → A) (x : ℕ) (v : A) (xs : List ℕ)
    → Apart x xs
    → Aged time now age_max item xs
    → Aged time now age_max (update item x v) xs
Aged-frame time now age_max item x v [] a h = tt
Aged-frame {A} time now age_max item x v (y ∷ xs) a h =
    (each xs a.1 h.0, Aged-frame time now age_max item x v xs a.1 h.1)
  where
    each :
        (l : List ℕ)
        → Apart x l
        → All (λ z. age now (time (item z)) ≤ age now (time (item y))) l
        → All (λ z. age now (time (update item x v z)) ≤ age now (time (update item x v y))) l
    each [] b k = tt
    each (z ∷ l) b k = (rw (update-ne item v x z b.0, update-ne item v x y a.0) k.0, each l b.1 k.1)

module _ (T : KeyTree) (laws : TreeLaws T) {A : Type 0} (time : A → ℕ) (now age_max : ℕ)
    (item : ℕ → A) where
  -- The loop has removed what stands before the first fresh flow.
  abbrev Pruned : List ℕ → Flows T A → Type 0
  Pruned xs g = Lists T laws g (from_fresh time now age_max item xs) × (g.item ≡ item)

  prune_from-Pruned :
      (fuel : ℕ) (f : Flows T A) (xs : List ℕ)
      → f.item ≡ item
      → length xs ≤ fuel
      → fuel < word
      → Lists T laws f xs
      → Pruned xs (prune_from T time now age_max fuel (first xs none) f)
  prune_from-Pruned zero f [] e small w h = unfold prune_from in (h, e)
  prune_from-Pruned zero f (x ∷ xs) e small w h = absurd (omega arith)
  prune_from-Pruned (suc fuel) f [] e small w h = unfold prune_from in (h, e)
  prune_from-Pruned (suc fuel) f (x ∷ xs) e small w h =
      elim (Bool-cases (is_stale time now age_max (item x))) [
        | inl t ↦
            let e1 : prune_from T time now age_max (suc fuel) (some x) f
                ≡ prune_from T time now age_max fuel (first xs none) (remove_flow T x f) =
              unfold prune_from in rw (e, t, h.links_hold.chain.1) in
            rw (e1, t)
              (prune_from-Pruned fuel (remove_flow T x f) xs (unfold remove_flow in e) (omega arith)
                (omega arith) (remove_flow-Lists T laws f x [] xs (omega arith) h))
        | inr t ↦
            let e1 : prune_from T time now age_max (suc fuel) (some x) f ≡ f =
              unfold prune_from in rw (e, t) in
            rw (e1, t) (h, e)
      ]

  -- If the key tree keeps its laws, pruning a sound list, of fewer than `2 ^ 32` flows that
  -- stand in the order of their last updates as seen at `now`, removes the flows older than
  -- `age_max`, and them alone.
  pub prune_list-Lists :
      (f : Flows T A) (xs : List ℕ)
      → f.item ≡ item
      → length xs < word
      → Aged time now age_max item xs
      → Lists T laws f xs
      → Lists T laws (prune_list T time now age_max f) (fresh time now age_max item xs)
  unfolding prune_list
  prune_list-Lists f xs e w a h =
      simp (h.counted, h.links_hold.head_is)
        (rw (← from_fresh-eq-fresh time now age_max item xs a)
          (prune_from-Pruned (length xs) f xs e (omega arith) w h).0)
