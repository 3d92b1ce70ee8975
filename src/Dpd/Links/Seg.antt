-- ===== src/Dpd/Links/Seg.antt =====
-- Segments of a doubly linked list.
use nrlsmf.Base.{
  ℕ, ◌≡◌, ◌≢◌, refl, sym, ap, ◌⊎◌, inl, inr, Option, some, List, [], ◌∷◌, ◌++◌, arith,
}
use nrlsmf.Dpd.Links.{update}

-- The first address of a segment, or what follows it; the last one, or what precedes it.
abbrev pub first : List ℕ → Option ℕ → Option ℕ
first [] n = n
first (x ∷ xs) n = some x

abbrev pub final : Option ℕ → List ℕ → Option ℕ
final p [] = p
final p (x ∷ xs) = final (some x) xs

abbrev pub Apart : ℕ → List ℕ → Type 0
Apart x [] = Unit {0}
Apart x (y ∷ ys) = (x ≢ y) × Apart x ys

abbrev pub Distinct : List ℕ → Type 0
Distinct [] = Unit {0}
Distinct (x ∷ xs) = Apart x xs × Distinct xs

module _ (prev next : ℕ → Option ℕ) where
  -- The flows `xs` in a row, after `p` and before `n`.
  abbrev pub Seg : Option ℕ → List ℕ → Option ℕ → Type 0
  Seg p [] n = Unit {0}
  Seg p (x ∷ xs) n = (prev x ≡ p) × (next x ≡ first xs n) × Seg (some x) xs n

  pub Seg-append :
      (p n : Option ℕ) (xs ys : List ℕ)
      → Seg p xs (first ys n)
      → Seg (final p xs) ys n
      → Seg p (xs ++ ys) n
  Seg-append p n [] ys a b = b
  Seg-append p n (x ∷ []) ys a b = (a.0, a.1, b)
  Seg-append p n (x ∷ (y ∷ xs)) ys a b = (a.0, a.1, Seg-append (some x) n (y ∷ xs) ys a.2 b)

  pub Seg-split :
      (p n : Option ℕ) (xs ys : List ℕ)
      → Seg p (xs ++ ys) n
      → Seg p xs (first ys n) × Seg (final p xs) ys n
  Seg-split p n [] ys a = (tt, a)
  Seg-split p n (x ∷ []) ys a = ((a.0, a.1, tt), a.2)
  Seg-split p n (x ∷ (y ∷ xs)) ys a =
      let r = Seg-split (some x) n (y ∷ xs) ys a.2 in ((a.0, a.1, r.0), r.1)

-- A write to a flow that stands apart changes nothing.
pub Seg-frame_next :
    (prev next : ℕ → Option ℕ) (p n v : Option ℕ) (q : ℕ) (xs : List ℕ)
    → Apart q xs
    → Seg prev next p xs n
    → Seg prev (update next q v) p xs n
Seg-frame_next prev next p n v q [] a s = tt
Seg-frame_next prev next p n v q (x ∷ xs) a s =
    (s.0, ground (arith, a.0, s.1), Seg-frame_next prev next (some x) n v q xs a.1 s.2)

pub Seg-frame_prev :
    (prev next : ℕ → Option ℕ) (p n v : Option ℕ) (q : ℕ) (xs : List ℕ)
    → Apart q xs
    → Seg prev next p xs n
    → Seg (update prev q v) next p xs n
Seg-frame_prev prev next p n v q [] a s = tt
Seg-frame_prev prev next p n v q (x ∷ xs) a s =
    (ground (arith, a.0, s.0), s.1, Seg-frame_prev prev next (some x) n v q xs a.1 s.2)

pub final-append : (p : Option ℕ) (xs ys : List ℕ) → final p (xs ++ ys) ≡ final (final p xs) ys
final-append p [] ys = refl
final-append p (x ∷ xs) ys = final-append (some x) xs ys

pub first-append : (n : Option ℕ) (xs ys : List ℕ) → first (xs ++ ys) n ≡ first xs (first ys n)
first-append n [] ys = refl
first-append n (x ∷ xs) ys = refl

-- A list is empty or has a last element.
pub snoc_cases : (xs : List ℕ) → (xs ≡ []) ⊎ ((ys : List ℕ) × (t : ℕ) × (xs ≡ ys ++ (t ∷ [])))
snoc_cases [] = inl refl
snoc_cases (x ∷ xs) = elim (snoc_cases xs) [
  | inl e ↦ inr ([], x, ap (λ r. x ∷ r) e)
  | inr (ys, t, e) ↦ inr (x ∷ ys, t, ap (λ r. x ∷ r) e)
]

pub Apart-append : (q : ℕ) (xs ys : List ℕ) → Apart q xs → Apart q ys → Apart q (xs ++ ys)
Apart-append q [] ys a b = b
Apart-append q (x ∷ xs) ys a b = (a.0, Apart-append q xs ys a.1 b)

pub Apart-split : (q : ℕ) (xs ys : List ℕ) → Apart q (xs ++ ys) → Apart q xs × Apart q ys
Apart-split q [] ys a = (tt, a)
Apart-split q (x ∷ xs) ys a = let r = Apart-split q xs ys a.1 in ((a.0, r.0), r.1)

-- An element of a list without repetitions stands apart from the rest.
pub Distinct-middle :
    (q : ℕ) (xs ys : List ℕ)
    → Distinct (xs ++ (q ∷ ys))
    → Apart q xs × Apart q ys × Distinct (xs ++ ys)
Distinct-middle q [] ys d = (tt, d.0, d.1)
Distinct-middle q (x ∷ xs) ys d =
    let r = Distinct-middle q xs ys d.1 in
    let a = Apart-split x xs (q ∷ ys) d.0 in
    ((λ e. a.1.0 (sym e), r.0), r.1, (Apart-append x xs ys a.0 a.1.1, r.2))

pub Distinct-snoc : (q : ℕ) (xs : List ℕ) → Apart q xs → Distinct xs → Distinct (xs ++ (q ∷ []))
Distinct-snoc q [] a d = (tt, tt)
Distinct-snoc q (x ∷ xs) a d =
    (Apart-append x xs (q ∷ []) d.0 (λ e. a.0 (sym e), tt), Distinct-snoc q xs a.1 d.1)
