-- ===== src/Fib/Lists/Both.antt =====
-- Prepend and Remove on one of two lists that share the entries' links.
use nrlsmf.Base.{
  All, ℕ, ◌≡◌, ◌≢◌, refl, sym, subst, ◌∙◌, inl, inr, Option, none, some, Option-cases, List, [],
  ◌∷◌, ◌++◌, arith,
}
use nrlsmf.Dpd.Links.{Links, append_to_list, remove_from_list, bypass_next, bypass_prev}
use nrlsmf.Dpd.Links.Seg.{
  first, final, Apart, Seg, Seg-split, Distinct-middle, Apart-append, Apart-split,
}
use nrlsmf.Dpd.Links.Order.{Holds, append_to_list-Holds, remove_from_list-Holds}
use nrlsmf.Fib.Lists.{
  Cells, ActiveList, prepend_entry, remove_entry, link_head, unlink_next, unlink_prev, links,
}

-- A segment whose cells are as they were.
pub Seg-same :
    (prev next prev' next' : ℕ → Option ℕ) (own : List ℕ) (p n : Option ℕ) (xs : List ℕ)
    → ((q : ℕ) → Apart q own → (prev' q ≡ prev q) × (next' q ≡ next q))
    → All (λ q. Apart q own) xs
    → Seg prev next p xs n
    → Seg prev' next' p xs n
Seg-same prev next prev' next' own p n [] same a s = tt
Seg-same prev next prev' next' own p n (x ∷ xs) same a s =
    let h = same x a.0 in
    (h.0 ∙ s.0, h.1 ∙ s.1, Seg-same prev next prev' next' own (some x) n xs same a.1 s.2)

prepend_entry-links :
    (x : ℕ) (l : ActiveList) (c : Cells)
    → links (prepend_entry x l c).0 (prepend_entry x l c).1 ≡ append_to_list x (links l c)
unfolding prepend_entry link_head append_to_list
prepend_entry-links x l c = elim (Option-cases l.head) [
  | inl e ↦ rw e refl
  | inr (h, e) ↦ rw e refl
]

-- Remove leaves the links of the other entries as RemoveFromList does.
record Agree (x : ℕ) (a b : Links) : Type 0 where
  head_same : a.head ≡ b.head
  tail_same : a.tail ≡ b.tail
  cells_same : (q : ℕ) → x ≢ q → (a.prev q ≡ b.prev q) × (a.next q ≡ b.next q)

remove_agrees :
    (x : ℕ) (l : ActiveList) (c : Cells)
    → Agree x (links (remove_entry x l c).0 (remove_entry x l c).1) (remove_from_list x (links l c))
unfolding remove_entry unlink_next unlink_prev remove_from_list bypass_next bypass_prev
remove_agrees x l c = elim (Option-cases (c.active_next x)) [
  | inl e ↦ elim (Option-cases (c.active_prev x)) [
    | inl g ↦
        rw (e, g) (record { head_same = refl; tail_same = refl; cells_same = λ q h. (refl, refl) })
    | inr (p, g) ↦
        rw (e, g)
          (record {
            head_same = refl;
            tail_same = refl;
            cells_same = λ q h. (ground arith, ground arith);
          })
  ]
  | inr (n, e) ↦ elim (Option-cases (c.active_prev x)) [
    | inl g ↦
        rw (e, g)
          (record {
            head_same = refl;
            tail_same = refl;
            cells_same = λ q h. (ground arith, ground arith);
          })
    | inr (p, g) ↦
        rw (e, g)
          (record {
            head_same = refl;
            tail_same = refl;
            cells_same = λ q h. (ground arith, ground arith);
          })
  ]
]

only_one : (x : ℕ) (xs : List ℕ) → Apart x xs → All (λ q. Apart q (x ∷ [])) xs
only_one x [] a = tt
only_one x (y ∷ ys) a = ((λ e. a.0 (sym e), tt), only_one x ys a.1)

-- Remove takes the entry out of its list.
pub remove_entry-Holds :
    (x : ℕ) (l : ActiveList) (c : Cells) (ys zs : List ℕ)
    → Holds (links l c) (ys ++ (x ∷ zs))
    → Holds (links (remove_entry x l c).0 (remove_entry x l c).1) (ys ++ zs)
remove_entry-Holds x l c ys zs h =
    let g = remove_agrees x l c in
    let k = remove_from_list-Holds (links l c) x ys zs h in
    let m = Distinct-middle x ys zs h.distinct in
    let o = remove_from_list x (links l c) in
    let r = remove_entry x l c in
    record {
      head_is = g.head_same ∙ k.head_is;
      tail_is = g.tail_same ∙ k.tail_is;
      chain =
          Seg-same o.prev o.next r.1.active_next r.1.active_prev (x ∷ []) none none (ys ++ zs)
            (λ q a. g.cells_same q (λ e. a.0 (sym e)))
            (only_one x (ys ++ zs) (Apart-append x ys zs m.0 m.1)) k.chain;
      distinct = k.distinct;
    }

-- The neighbours of an entry are in its list.
final-Apart :
    (q n : ℕ) (p : Option ℕ) (ys : List ℕ)
    → ((k : ℕ) → p ≡ some k → q ≢ k)
    → Apart q ys
    → final p ys ≡ some n
    → q ≢ n
final-Apart q n p [] h a e = h n e
final-Apart q n p (y ∷ ys) h a e =
    final-Apart q n (some y) ys (λ k f. let same : y ≡ k = cc in λ g. a.0 (g ∙ sym same)) a.1 e

first-Apart : (q n : ℕ) (zs : List ℕ) → Apart q zs → first zs none ≡ some n → q ≢ n
first-Apart q n [] a e = cc e
first-Apart q n (z ∷ zs) a e = let same : z ≡ n = cc in λ g. a.0 (g ∙ sym same)

-- The links of an entry are as they were.
abbrev pub SameCells : ℕ → Cells → Cells → Type 0
SameCells q c d = (d.active_next q ≡ c.active_next q) × (d.active_prev q ≡ c.active_prev q)

remove_frame :
    (x q : ℕ) (l : ActiveList) (c : Cells)
    → q ≢ x
    → ((n : ℕ) → c.active_next x ≡ some n → q ≢ n)
    → ((p : ℕ) → c.active_prev x ≡ some p → q ≢ p)
    → SameCells q c (remove_entry x l c).1
unfolding remove_entry unlink_next unlink_prev
remove_frame x q l c h hn hp = elim (Option-cases (c.active_next x)) [
  | inl e ↦ elim (Option-cases (c.active_prev x)) [
    | inl g ↦ rw (e, g) (refl, refl)
    | inr (p, g) ↦ let a = hp p g in rw (e, g) (ground arith, ground arith)
  ]
  | inr (n, e) ↦ elim (Option-cases (c.active_prev x)) [
    | inl g ↦ let b = hn n e in rw (e, g) (ground arith, ground arith)
    | inr (p, g) ↦ let a = hp p g in let b = hn n e in rw (e, g) (ground arith, ground arith)
  ]
]

prepend_frame :
    (x q : ℕ) (l : ActiveList) (c : Cells)
    → q ≢ x
    → ((h : ℕ) → l.head ≡ some h → q ≢ h)
    → SameCells q c (prepend_entry x l c).1
unfolding prepend_entry link_head
prepend_frame x q l c n hh = elim (Option-cases l.head) [
  | inl e ↦ rw e (ground arith, ground arith)
  | inr (h, e) ↦ let a = hh h e in rw e (ground arith, ground arith)
]

-- A list none of whose entries is written to.
other_list :
    (l : ActiveList) (c d : Cells) (own xs : List ℕ)
    → ((q : ℕ) → Apart q own → SameCells q c d)
    → All (λ q. Apart q own) xs
    → Holds (links l c) xs
    → Holds (links l d) xs
other_list l c d own xs same a h = record {
  head_is = h.head_is;
  tail_is = h.tail_is;
  chain =
      Seg-same c.active_next c.active_prev d.active_next d.active_prev own none none xs same a
        h.chain;
  distinct = h.distinct;
}

-- Remove from one list leaves the other as it was.
pub remove_entry_other :
    (x : ℕ) (l k : ActiveList) (c : Cells) (ys zs xs : List ℕ)
    → Holds (links l c) (ys ++ (x ∷ zs))
    → All (λ q. Apart q (ys ++ (x ∷ zs))) xs
    → Holds (links k c) xs
    → Holds (links k (remove_entry x l c).1) xs
remove_entry_other x l k c ys zs xs h a other =
    let s = (Seg-split c.active_next c.active_prev none none ys (x ∷ zs) h.chain).1 in
    other_list k c (remove_entry x l c).1 (ys ++ (x ∷ zs)) xs
      (λ q b.
        let m = Apart-split q ys (x ∷ zs) b in
        remove_frame x q l c m.1.0 (λ n e. final-Apart q n none ys (λ j f. cc f) m.0 (sym s.0 ∙ e))
          (λ n e. first-Apart q n zs m.1.1 (sym s.1 ∙ e)))
      a other

pub prepend_entry_other :
    (x : ℕ) (l k : ActiveList) (c : Cells) (own xs : List ℕ)
    → Holds (links l c) own
    → All (λ q. Apart q (x ∷ own)) xs
    → Holds (links k c) xs
    → Holds (links k (prepend_entry x l c).1) xs
prepend_entry_other x l k c own xs h a other =
    other_list k c (prepend_entry x l c).1 (x ∷ own) xs
      (λ q b.
        prepend_frame x q l c b.0
          (λ n e. final-Apart q n none own (λ j f. cc f) b.1 (sym h.tail_is ∙ e)))
      a other

-- Prepend puts the entry behind the others, as seen from the tail.
pub prepend_entry-Holds :
    (x : ℕ) (l : ActiveList) (c : Cells) (xs : List ℕ)
    → Apart x xs
    → Holds (links l c) xs
    → Holds (links (prepend_entry x l c).0 (prepend_entry x l c).1) (xs ++ (x ∷ []))
prepend_entry-Holds x l c xs a h =
    subst (λ (k : Links). Holds k (xs ++ (x ∷ []))) (sym (prepend_entry-links x l c))
      (append_to_list-Holds (links l c) x xs a h)
