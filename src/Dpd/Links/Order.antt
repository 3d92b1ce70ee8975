-- ===== src/Dpd/Links/Order.antt =====
-- The list operations on a well-formed list, as operations on the sequence of its flows.
use mathlib.Core.List.{append-nil, append_assoc}
use nrlsmf.Base.{
  ℕ, ◌≡◌, refl, sym, ap, ◌∙◌, subst, inl, inr, none, some, List, [], ◌∷◌, ◌++◌, arith,
}
use nrlsmf.Dpd.Links.{
  Links, update, append_to_list, remove_from_list, bypass_next, bypass_prev, move_to_tail, no_links,
}
use nrlsmf.Dpd.Links.Seg.{
  first, final, Apart, Distinct, Seg, Seg-append, Seg-split, Seg-frame_next, Seg-frame_prev,
  final-append, snoc_cases, Apart-append, Apart-split, Distinct-middle, Distinct-snoc,
}

-- The list holds the flows `xs`, from the head to the tail.
pub record Holds (l : Links) (xs : List ℕ) : Type 0 where
  pub head_is : l.head ≡ first xs none
  pub tail_is : l.tail ≡ final none xs
  pub chain : Seg l.prev l.next none xs none
  pub distinct : Distinct xs

pub no_links-Holds : Holds no_links []
unfolding no_links
no_links-Holds = record { head_is = refl; tail_is = refl; chain = tt; distinct = tt }

append_chain :
    (l : Links) (x t : ℕ) (ys : List ℕ)
    → Distinct (ys ++ (t ∷ []))
    → Apart x (ys ++ (t ∷ []))
    → Seg l.prev l.next none (ys ++ (t ∷ [])) none
    → Seg
        (update l.prev x (some t))
        (update (update l.next t (some x)) x none)
        none
        ((ys ++ (t ∷ [])) ++ (x ∷ []))
        none
append_chain l x t ys d a s =
    let p = Distinct-middle t ys [] d in
    let q = Apart-split x ys (t ∷ []) a in
    let r = Seg-split l.prev l.next none none ys (t ∷ []) s in
    let prev' = update l.prev x (some t) in
    let next' = update (update l.next t (some x)) x none in
    let front : Seg prev' next' none ys (some t) =
      Seg-frame_next prev' _ none (some t) none x ys q.0 (
        Seg-frame_next prev' _ none (some t) (some x) t ys p.0
          (Seg-frame_prev _ _ none (some t) (some t) x ys q.0 r.0)) in
    let last : Seg prev' next' (final none ys) (t ∷ []) (some x) =
      (ground (arith, q.1.0, r.1.0), ground (arith, q.1.0), tt) in
    let new : Seg prev' next' (final none (ys ++ (t ∷ []))) (x ∷ []) none =
      (ground (arith, final-append none ys (t ∷ [])), ground arith, tt) in
    Seg-append prev' next' none none (ys ++ (t ∷ [])) (x ∷ [])
      (Seg-append prev' next' none (some x) ys (t ∷ []) front last) new

append_empty : (l : Links) (x : ℕ) → Holds l [] → Holds (append_to_list x l) (x ∷ [])
unfolding append_to_list
append_empty l x h = record {
  head_is = ground (arith, h.tail_is);
  tail_is = ground (arith, h.tail_is);
  chain = (ground (arith, h.tail_is), ground (arith, h.tail_is), tt);
  distinct = (tt, tt);
}

append_full :
    (l : Links) (x t : ℕ) (ys : List ℕ)
    → Apart x (ys ++ (t ∷ []))
    → Holds l (ys ++ (t ∷ []))
    → Holds (append_to_list x l) ((ys ++ (t ∷ [])) ++ (x ∷ []))
append_full l x t ys a h = rw e1 (record {
  head_is = h.head_is ∙ head_same;
  tail_is = sym (final-append none (ys ++ (t ∷ [])) (x ∷ []));
  chain = append_chain l x t ys h.distinct a h.chain;
  distinct = Distinct-snoc x (ys ++ (t ∷ [])) a h.distinct;
})
  where
    tail_t : l.tail ≡ some t
    tail_t = h.tail_is ∙ final-append none ys (t ∷ [])

    e1 : append_to_list x l ≡ record l {
      prev = update l.prev x (some t);
      next = update (update l.next t (some x)) x none;
      tail = some x;
    }
    e1 = unfold append_to_list in rw (tail_t)

    head_same : first (ys ++ (t ∷ [])) none ≡ first ((ys ++ (t ∷ [])) ++ (x ∷ [])) none
    head_same = head_of ys
      where
        head_of :
            (zs : List ℕ) → first (zs ++ (t ∷ [])) none ≡ first ((zs ++ (t ∷ [])) ++ (x ∷ [])) none
        head_of [] = refl
        head_of (z ∷ zs) = refl

-- On a well-formed doubly linked list, AppendToList of a flow that is not in it puts the flow
-- behind the last one, and the list is well-formed again.
pub append_to_list-Holds :
    (l : Links) (x : ℕ) (xs : List ℕ)
    → Apart x xs
    → Holds l xs
    → Holds (append_to_list x l) (xs ++ (x ∷ []))
append_to_list-Holds l x xs a h = elim (snoc_cases xs) [
  | inl e ↦
      subst (λ (r : List ℕ). Holds (append_to_list x l) (r ++ (x ∷ []))) (sym e)
        (append_empty l x (subst (Holds l) e h))
  | inr (ys, t, e) ↦
      subst (λ (r : List ℕ). Holds (append_to_list x l) (r ++ (x ∷ []))) (sym e)
        (append_full l x t ys (subst (Apart x) e a) (subst (Holds l) e h))
]

-- The list between the two steps of RemoveFromList.
record Halfway (l : Links) (x : ℕ) (ys zs : List ℕ) : Type 0 where
  head_is : l.head ≡ first (ys ++ zs) none
  tail_is : l.tail ≡ final none (ys ++ (x ∷ zs))
  front : Seg l.prev l.next none ys (first zs none)
  back : Seg l.prev l.next (some x) zs none

bypass_first :
    (l : Links) (x : ℕ) (zs : List ℕ)
    → Holds l (x ∷ zs)
    → Halfway (bypass_next none (first zs none) l) x [] zs
unfolding bypass_next
bypass_first l x zs h = record { head_is = refl; tail_is = h.tail_is; front = tt; back = h.chain.2 }

bypass_at :
    (l : Links) (x p : ℕ) (us zs : List ℕ)
    → Holds l ((us ++ (p ∷ [])) ++ (x ∷ zs))
    → Halfway (bypass_next (some p) (first zs none) l) x (us ++ (p ∷ [])) zs
unfolding bypass_next
bypass_at l x p us zs h =
    let ys = us ++ (p ∷ []) in
    let d : Distinct (us ++ (p ∷ (x ∷ zs))) =
      subst Distinct (append_assoc us (p ∷ []) (x ∷ zs)) h.distinct in
    let m = Distinct-middle p us (x ∷ zs) d in
    let s = Seg-split l.prev l.next none none ys (x ∷ zs) h.chain in
    let t = Seg-split l.prev l.next none (some x) us (p ∷ []) s.0 in
    let next' = update l.next p (first zs none) in
    record {
      head_is = h.head_is ∙ head_of us;
      tail_is = h.tail_is;
      front =
          Seg-append l.prev next' none (first zs none) us (p ∷ [])
            (Seg-frame_next l.prev l.next none (some p) (first zs none) p us m.0 t.0)
            (t.1.0, ground arith, tt);
      back = Seg-frame_next l.prev l.next (some x) none (first zs none) p zs m.1.1 s.1.2;
    }
  where
    head_of :
        (ws : List ℕ)
        → first ((ws ++ (p ∷ [])) ++ (x ∷ zs)) none ≡ first ((ws ++ (p ∷ [])) ++ zs) none
    head_of [] = refl
    head_of (w ∷ ws) = refl

bypass_next-Halfway :
    (l : Links) (x : ℕ) (ys zs : List ℕ)
    → Holds l (ys ++ (x ∷ zs))
    → Halfway (bypass_next (final none ys) (first zs none) l) x ys zs
bypass_next-Halfway l x ys zs h = elim (snoc_cases ys) [
  | inl e ↦
      subst (λ (r : List ℕ). Halfway (bypass_next (final none r) (first zs none) l) x r zs) (sym e)
        (bypass_first l x zs (subst (λ (r : List ℕ). Holds l (r ++ (x ∷ zs))) e h))
  | inr (us, p, e) ↦
      subst (λ (r : List ℕ). Halfway (bypass_next (final none r) (first zs none) l) x r zs) (sym e)
        (subst (λ o. Halfway (bypass_next o (first zs none) l) x (us ++ (p ∷ [])) zs)
          (sym (final-append none us (p ∷ [])))
          (bypass_at l x p us zs (subst (λ (r : List ℕ). Holds l (r ++ (x ∷ zs))) e h)))
]

bypass_prev-Holds :
    (l : Links) (x : ℕ) (ys zs : List ℕ)
    → Distinct (ys ++ zs)
    → Halfway l x ys zs
    → Holds (bypass_prev (final none ys) (first zs none) l) (ys ++ zs)
unfolding bypass_prev
bypass_prev-Holds l x ys [] d h = record {
  head_is = h.head_is;
  tail_is = sym (ap (final none) (append-nil ys));
  chain = Seg-append l.prev l.next none none ys [] h.front tt;
  distinct = d;
}
bypass_prev-Holds l x ys (z ∷ zs) d h =
    let m = Distinct-middle z ys zs d in
    let prev' = update l.prev z (final none ys) in
    record {
      head_is = h.head_is;
      tail_is =
          h.tail_is ∙ final-append none ys (x ∷ (z ∷ zs)) ∙ sym (final-append none ys (z ∷ zs));
      chain =
          Seg-append prev' l.next none none ys (z ∷ zs)
            (Seg-frame_prev l.prev l.next none (some z) (final none ys) z ys m.0 h.front)
            (
              ground arith,
              h.back.1,
              Seg-frame_prev l.prev l.next (some z) none (final none ys) z zs m.1 h.back.2,
            );
      distinct = d;
    }

-- On a well-formed doubly linked list, RemoveFromList of a flow that is in it takes out the
-- flow and leaves the others in order, and the list is well-formed again.
pub remove_from_list-Holds :
    (l : Links) (x : ℕ) (ys zs : List ℕ)
    → Holds l (ys ++ (x ∷ zs))
    → Holds (remove_from_list x l) (ys ++ zs)
unfolding remove_from_list
remove_from_list-Holds l x ys zs h =
    let s = (Seg-split l.prev l.next none none ys (x ∷ zs) h.chain).1 in
    let d = (Distinct-middle x ys zs h.distinct).2 in
    rw (s.0, s.1) (bypass_prev-Holds _ x ys zs d (bypass_next-Halfway l x ys zs h))

-- On a well-formed doubly linked list, MoveToTail of a flow that is in it makes the flow the
-- last one and keeps the order of the others, and the list is well-formed again.
pub move_to_tail-Holds :
    (l : Links) (x : ℕ) (ys zs : List ℕ)
    → Holds l (ys ++ (x ∷ zs))
    → Holds (move_to_tail x l) ((ys ++ zs) ++ (x ∷ []))
unfolding move_to_tail
move_to_tail-Holds l x ys zs h =
    let m = Distinct-middle x ys zs h.distinct in
    append_to_list-Holds (remove_from_list x l) x (ys ++ zs) (Apart-append x ys zs m.0 m.1)
      (remove_from_list-Holds l x ys zs h)
