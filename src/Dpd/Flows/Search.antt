-- ===== src/Dpd/Flows/Search.antt =====
-- The flow with a given key, looked for along the list.
use nrlsmf.Base.{
  ℕ, ◌≡◌, refl, sym, ap, subst, ◌∙◌, ◌↔◌, inl, inr, Bool, true, false, Option, none, some, List, [],
  ◌∷◌, ◌++◌, arith, if◌then◌else◌, Bool-cases,
}
use nrlsmf.Dpd.Links.{update, update-ne}
use nrlsmf.Dpd.Links.Seg.{Apart}

module _ {K : Type 0} (eq : K → K → Bool) (eq_iff : (a b : K) → (eq a b ≡ true) ↔ (a ≡ b))
    (id : ℕ → K) where
  abbrev pub search : K → List ℕ → Option ℕ
  search k [] = none
  search k (x ∷ xs) = if eq k (id x) then some x else search k xs

  -- No flow of the list has the key.
  abbrev pub Lacks : K → List ℕ → Type 0
  Lacks k [] = Unit {0}
  Lacks k (x ∷ xs) = (eq k (id x) ≡ false) × Lacks k xs

  -- No two flows of the list have the same key.
  abbrev pub Keyed : List ℕ → Type 0
  Keyed [] = Unit {0}
  Keyed (x ∷ xs) = Lacks (id x) xs × Keyed xs

  pub Lacks-append : (k : K) (xs ys : List ℕ) → Lacks k xs → Lacks k ys → Lacks k (xs ++ ys)
  Lacks-append k [] ys a b = b
  Lacks-append k (x ∷ xs) ys a b = (a.0, Lacks-append k xs ys a.1 b)

  pub Lacks-split : (k : K) (xs ys : List ℕ) → Lacks k (xs ++ ys) → Lacks k xs × Lacks k ys
  Lacks-split k [] ys a = (tt, a)
  Lacks-split k (x ∷ xs) ys a = let r = Lacks-split k xs ys a.1 in ((a.0, r.0), r.1)

  eq_sym : (a b : K) → eq a b ≡ false → eq b a ≡ false
  eq_sym a b h = elim (Bool-cases (eq b a)) [
    | inl t ↦ ground (arith, h, (eq_iff a b).1 (sym ((eq_iff b a).0 t)))
    | inr f ↦ f
  ]

  pub Keyed-middle :
      (x : ℕ) (ys zs : List ℕ) → Keyed (ys ++ (x ∷ zs)) → Lacks (id x) (ys ++ zs) × Keyed (ys ++ zs)
  Keyed-middle x [] zs h = h
  Keyed-middle x (y ∷ ys) zs h =
      let r = Keyed-middle x ys zs h.1 in
      let a = Lacks-split (id y) ys (x ∷ zs) h.0 in
      ((eq_sym (id y) (id x) a.1.0, r.0), (Lacks-append (id y) ys zs a.0 a.1.1, r.1))

  pub Keyed-snoc : (x : ℕ) (xs : List ℕ) → Lacks (id x) xs → Keyed xs → Keyed (xs ++ (x ∷ []))
  Keyed-snoc x [] a h = (tt, tt)
  Keyed-snoc x (y ∷ xs) a h =
      (Lacks-append (id y) xs (x ∷ []) h.0 (eq_sym (id x) (id y) a.0, tt), Keyed-snoc x xs a.1 h.1)

  pub search-Lacks : (k : K) (xs : List ℕ) → search k xs ≡ none → Lacks k xs
  search-Lacks k [] e = tt
  search-Lacks k (x ∷ xs) e = (ground arith, search-Lacks k xs (ground arith))

  pub Lacks-search : (k : K) (xs : List ℕ) → Lacks k xs → search k xs ≡ none
  Lacks-search k [] a = refl
  Lacks-search k (x ∷ xs) a = rw a.0 (Lacks-search k xs a.1)

  -- A key of one flow is not that of a flow with another key.
  key_differ :
      (k : K) (x y : ℕ) → eq (id x) (id y) ≡ false → eq k (id y) ≡ true → eq k (id x) ≡ false
  key_differ k x y a t = elim (Bool-cases (eq k (id x))) [
    | inl u ↦
        let same : id x ≡ id y = sym ((eq_iff k (id x)).0 u) ∙ (eq_iff k (id y)).0 t in
        ground (arith, a, (eq_iff (id x) (id y)).1 same)
    | inr f ↦ f
  ]

  -- Behind a list that lacks its key, a new flow is found last.
  pub search-snoc :
      (k : K) (x : ℕ) (xs : List ℕ)
      → Lacks (id x) xs
      → search k (xs ++ (x ∷ [])) ≡ (if eq k (id x) then some x else search k xs)
  search-snoc k x [] a = refl
  search-snoc k x (y ∷ xs) a = elim (Bool-cases (eq k (id y))) [
    | inl t ↦ rw (t, key_differ k x y a.0 t)
    | inr f ↦ rw f (search-snoc k x xs a.1)
  ]

  pub search-remove :
      (k : K) (x : ℕ) (ys zs : List ℕ)
      → Keyed (ys ++ (x ∷ zs))
      → search k (ys ++ zs) ≡ (if eq k (id x) then none else search k (ys ++ (x ∷ zs)))
  search-remove k x [] zs h = elim (Bool-cases (eq k (id x))) [
    | inl t ↦ rw t (Lacks-search k zs (subst (λ j. Lacks j zs) (sym ((eq_iff k (id x)).0 t)) h.0))
    | inr f ↦ rw f
  ]
  search-remove k x (y ∷ ys) zs h = elim (Bool-cases (eq k (id y))) [
    | inl t ↦
        let a = (Lacks-split (id y) ys (x ∷ zs) h.0).1.0 in
        rw (t, key_differ k x y (eq_sym (id y) (id x) a) t)
    | inr f ↦ rw f (search-remove k x ys zs h.1)
  ]

  -- A listed flow is found by its key.
  pub search-middle :
      (x : ℕ) (ys zs : List ℕ) → Keyed (ys ++ (x ∷ zs)) → search (id x) (ys ++ (x ∷ zs)) ≡ some x
  search-middle x [] zs h = rw ((eq_iff (id x) (id x)).1 refl)
  search-middle x (y ∷ ys) zs h =
      let a = (Lacks-split (id y) ys (x ∷ zs) h.0).1.0 in
      rw (eq_sym (id y) (id x) a) (search-middle x ys zs h.1)

  -- It makes no difference where a flow stands.
  pub search-move :
      (k : K) (x : ℕ) (ys zs : List ℕ)
      → Keyed (ys ++ (x ∷ zs))
      → search k (ys ++ (x ∷ zs)) ≡ search k ((ys ++ zs) ++ (x ∷ []))
  search-move k x ys zs h = elim (Bool-cases (eq k (id x))) [
    | inl t ↦
        subst (λ j. search j (ys ++ (x ∷ zs)) ≡ some x) (sym ((eq_iff k (id x)).0 t))
          (search-middle x ys zs h)
        ∙ sym (snoc ∙ ap (λ b. if b then some x else search k (ys ++ zs)) t)
    | inr f ↦
        sym (search-remove k x ys zs h ∙ ap (λ b. if b then none else search k (ys ++ (x ∷ zs))) f)
        ∙ sym (snoc ∙ ap (λ b. if b then some x else search k (ys ++ zs)) f)
  ]
    where
      snoc :
          search k ((ys ++ zs) ++ (x ∷ [])) ≡ (if eq k (id x) then some x else search k (ys ++ zs))
      snoc = search-snoc k x (ys ++ zs) (Keyed-middle x ys zs h).0

  -- A flow that is found stands in the list, and has the key.
  pub search-found :
      (k : K) (x : ℕ) (xs : List ℕ)
      → search k xs ≡ some x
      → (ys : List ℕ) × (zs : List ℕ) × (xs ≡ ys ++ (x ∷ zs)) × (id x ≡ k)
  search-found k x [] e = absurd (ground arith)
  search-found k x (y ∷ xs) e = elim (Bool-cases (eq k (id y))) [
    | inl t ↦
        let y_is : y ≡ x = ground (arith, t) in
        ([], xs, rw y_is refl, ap id (sym y_is) ∙ sym ((eq_iff k (id y)).0 t))
    | inr f ↦
        let r = search-found k x xs (ground (arith, f)) in
        (y ∷ r.0, r.1, ap (λ (l : List ℕ). y ∷ l) r.2, r.3)
  ]

module _ {K : Type 0} (eq : K → K → Bool) (eq_iff : (a b : K) → (eq a b ≡ true) ↔ (a ≡ b))
    (id : ℕ → K) (x : ℕ) (v : K) where
  -- The key of a flow outside the list is of no account.
  pub search-frame :
      (k : K) (xs : List ℕ)
      → Apart x xs
      → search eq eq_iff (update id x v) k xs ≡ search eq eq_iff id k xs
  search-frame k [] a = refl
  search-frame k (y ∷ xs) a =
      rw (update-ne id v x y a.0)
        (ap (λ o. if eq k (id y) then some y else o) (search-frame k xs a.1))

  Lacks-frame :
      (k : K) (xs : List ℕ)
      → Apart x xs
      → Lacks eq eq_iff id k xs
      → Lacks eq eq_iff (update id x v) k xs
  Lacks-frame k [] a h = tt
  Lacks-frame k (y ∷ xs) a h = (rw (update-ne id v x y a.0) h.0, Lacks-frame k xs a.1 h.1)

  pub Keyed-frame :
      (xs : List ℕ) → Apart x xs → Keyed eq eq_iff id xs → Keyed eq eq_iff (update id x v) xs
  Keyed-frame [] a h = tt
  Keyed-frame (y ∷ xs) a h =
      (rw (update-ne id v x y a.0) (Lacks-frame (id y) xs a.1 h.0), Keyed-frame xs a.1 h.1)
