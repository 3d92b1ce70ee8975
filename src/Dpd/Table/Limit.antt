-- ===== src/Dpd/Table/Limit.antt =====
-- The limit on the ids of a flow of SmfDpdTable.
use nrlsmf.Base.{
  ℕ, suc, ◌*◌, ◌≡◌, ◌<◌, ◌≤◌, refl, sym, ◌∙◌, inl, inr, Bool, true, false, ◌&&◌, Option, none, some,
  List, arith, Bool-cases, Option-cases, length, ltb, leb, word, subst,
}
use nrlsmf.Dpd.Tree.{KeyTree}
use nrlsmf.Dpd.Table.{
  Entry, ItemPool, Ids, set_pkt_id, make_room, from_pool, store_id, enter, table_is_duplicate,
}
use nrlsmf.Dpd.Table.Room.{Below, store_id-Counts, make_room-Below}

module _ (T : KeyTree) (I : ItemPool) where
  -- The count is at most the limit.
  abbrev pub AtMost : ℕ → Ids T I → Type 0
  AtMost limit s = (s.pkt_count ≤ limit) × (s.pkt_count_max ≡ limit)

  stored-AtMost :
      (x now limit : ℕ) (e : Entry) (s : Ids T I)
      → limit < word
      → Below T I limit (none, s)
      → AtMost limit (store_id T I x now e s)
  stored-AtMost x now limit e s small b =
      let c = store_id-Counts T I x now s.pkt_count limit e s (refl, b.1) in
      (subst (λ (m : ℕ). m ≤ limit) (sym c.0) (omega (arith, small, b.0)), c.1)

  enter-AtMost :
      (now : ℕ) (id : List ℕ) (alloc : Option ℕ) (room : Bool) (limit : ℕ) (kept : Option ℕ)
      (s : Ids T I)
      → limit < word
      → Below T I limit (kept, s)
      → AtMost limit (enter T I now id alloc room kept s).1
  unfolding enter set_pkt_id
  enter-AtMost now id alloc room limit (some x) s small b = stored-AtMost x now limit _ s small b
  enter-AtMost now id none room limit none s small b = (omega (arith, b.0), b.1)
  enter-AtMost now id (some x) true limit none s small b = stored-AtMost x now limit _ s small b
  enter-AtMost now id (some x) false limit none s small b = (omega (arith, b.0), b.1)

  pool-Below :
      (len limit : ℕ) (s : Ids T I)
      → Below T I limit (none, s)
      → Below T I limit (from_pool T I len s)
  unfolding from_pool
  pool-Below len limit s b = elim (Option-cases (s.pools len)) [
    | inl e ↦ rw (e, from_pool) b
    | inr (p, e) ↦ rw (e, from_pool) b
  ]

  under_limit :
      (s : Ids T I)
      → 0 < s.pkt_count_max
      → (ltb 0 s.pkt_count_max && leb s.pkt_count_max s.pkt_count) ≡ false
      → s.pkt_count < s.pkt_count_max
  under_limit s positive free = ground (arith, positive)

  same_answer : (q r : Bool × Ids T I) → some q ≡ some r → q ≡ r
  same_answer q r p = cc

  no_answer : (r : Bool × Ids T I) → ¬ (none ≡ some r)
  no_answer r = ground arith

  module _ (now : ℕ) (id : List ℕ) (alloc : Option ℕ) (room : Bool) (s : Ids T I) where
    abbrev at_limit : Bool
    at_limit = ltb 0 s.pkt_count_max && leb s.pkt_count_max s.pkt_count

    abbrev answered : Option (Bool × Ids T I)
    answered = table_is_duplicate T I now id alloc room s

    abbrev found_at : Option ℕ
    found_at = T.find (T.key id (length id * 8)) s.id_tree

    abbrev cleared : Option (Option ℕ × Ids T I)
    cleared = make_room T I (suc s.pkt_count) room (length id) none s

    seen : (y : ℕ) → found_at ≡ some y → answered ≡ some (true, s)
    unfolding table_is_duplicate
    seen y f = rw (f, table_is_duplicate) refl

    stuck : found_at ≡ none → at_limit ≡ true → cleared ≡ none → answered ≡ none
    unfolding table_is_duplicate
    stuck f full h = rw (f, full, h, table_is_duplicate) refl

    after_clearing :
        (q : Option ℕ × Ids T I)
        → found_at ≡ none
        → at_limit ≡ true
        → cleared ≡ some q
        → answered ≡ some (enter T I now id alloc room q.0 q.1)
    unfolding table_is_duplicate
    after_clearing q f full h = rw (f, full, h, table_is_duplicate) refl

    with_room :
        found_at ≡ none
        → at_limit ≡ false
        → answered
          ≡ some (
              enter T I now id alloc room
                (from_pool T I (length id) s).0
                (from_pool T I (length id) s).1)
    unfolding table_is_duplicate
    with_room f free = rw (f, free, table_is_duplicate) refl

    -- If a flow of SmfDpdTable has a limit, a 32-bit number other than 0, and its count is at
    -- most the limit, then whenever IsDuplicate returns, for an id known or new, with room or
    -- after making room, and with or without memory for the entry and its buffer, the count is
    -- at most the limit, which has not changed.
    pub table_is_duplicate-limit :
        (r : Bool × Ids T I)
        → 0 < s.pkt_count_max
        → s.pkt_count_max < word
        → s.pkt_count ≤ s.pkt_count_max
        → table_is_duplicate T I now id alloc room s ≡ some r
        → AtMost s.pkt_count_max r.1
    table_is_duplicate-limit r positive small bound e =
        let limit = s.pkt_count_max in
        let to = λ (q : Bool × Ids T I) (p : answered ≡ some q) (a : AtMost limit q.1).
          subst (λ (t : Bool × Ids T I). AtMost limit t.1) (same_answer q r (sym p ∙ e)) a in
        elim (Option-cases found_at) [
          | inr (y, f) ↦ to (true, s) (seen y f) (bound, refl)
          | inl f ↦ elim (Bool-cases at_limit) [
            | inr free ↦ to _ (with_room f free) (
                enter-AtMost now id alloc room limit _ _ small
                  (pool-Below (length id) limit s (under_limit s positive free, refl)))
            | inl full ↦ elim (Option-cases cleared) [
              | inl h ↦ absurd (no_answer r (sym (stuck f full h) ∙ e))
              | inr (q, h) ↦ to _ (after_clearing q f full h) (
                  enter-AtMost now id alloc room limit q.0 q.1 small (
                    make_room-Below T I (suc s.pkt_count) room (length id) s.pkt_count limit none s
                      q (refl, refl) positive (omega arith) (omega arith) h))
            ]
          ]
        ]
