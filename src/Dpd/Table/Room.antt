-- ===== src/Dpd/Table/Room.antt =====
-- The loop of SmfDpdTable::Flow::IsDuplicate that makes room, and its end.
use nrlsmf.Base.{
  ℕ, zero, suc, ◌+◌, ◌%◌, ◌≡◌, ◌<◌, ◌≤◌, refl, sym, ap, ◌∙◌, inl, inr, Bool, true, false, Option,
  none, some, arith, Bool-cases, Option-cases, length, ◌==◌, leb, sub32, word, ◌⊎◌, ◌-◌, leb→le,
  subst,
}
use nrlsmf.Dpd.Tree.{KeyTree}
use nrlsmf.Dpd.Table.{
  Entry, ItemPool, Ids, id_bytes, set_entry_next, set_arrival, link_last, append_entry, remove_head,
  give_back, entry_key, make_room, store_id,
}

module _ (T : KeyTree) (I : ItemPool) where
  -- The count and the limit are those given.
  abbrev pub Counts : ℕ → ℕ → Ids T I → Type 0
  Counts n limit s = (s.pkt_count ≡ n) × (s.pkt_count_max ≡ limit)

  give_back-Counts :
      (room : Bool) (x n limit : ℕ) (s : Ids T I)
      → Counts n limit s
      → Counts n limit (give_back T I room x s)
  unfolding give_back
  give_back-Counts room x n limit s c =
      elim (Option-cases (s.pools (length (id_bytes (s.entries x))))) [
        | inr (p, e) ↦ rw (e, give_back) c
        | inl e ↦ elim (Bool-cases room) [
          | inl f ↦ rw (e, f, give_back) c
          | inr f ↦ rw (e, f, give_back) c
        ]
      ]

  pub store_id-Counts :
      (x now n limit : ℕ) (e : Entry) (s : Ids T I)
      → Counts n limit s
      → Counts ((n + 1) % word) limit (store_id T I x now e s)
  unfolding store_id append_entry set_arrival link_last set_entry_next
  store_id-Counts x now n limit e s c = elim (Option-cases s.tail) [
    | inl f ↦ rw (f, store_id) (ap (λ (m : ℕ). (m + 1) % word) c.0, c.1)
    | inr (t, f) ↦ rw (f, store_id) (ap (λ (m : ℕ). (m + 1) % word) c.0, c.1)
  ]

  -- What is left when the entry at `x`, the head, has been removed and counted off.
  abbrev rest_of : ℕ → Ids T I → Ids T I
  rest_of x s = record s {
    head = (s.entries x).next;
    id_tree = T.remove (entry_key T I (s.entries x)) x s.id_tree;
    pkt_count = sub32 s.pkt_count 1;
  }

  none_removed : (s : Ids T I) → s.head ≡ none → remove_head T I s ≡ (none, s)
  unfolding remove_head
  none_removed s h = simp (h, remove_head)

  head_removed :
      (x : ℕ) (s : Ids T I)
      → s.head ≡ some x
      → remove_head T I s ≡ (some x, record (rest_of x s) { pkt_count = s.pkt_count })
  unfolding remove_head
  head_removed x s h = simp (h, remove_head)

  module _ (fuel : ℕ) (room : Bool) (len : ℕ) (kept : Option ℕ) (s : Ids T I) where
    made_room :
        leb s.pkt_count_max s.pkt_count ≡ false
        → make_room T I (suc fuel) room len kept s ≡ some (kept, s)
    unfolding make_room
    made_room e = rw (e, make_room) refl

    null_head :
        leb s.pkt_count_max s.pkt_count ≡ true
        → s.head ≡ none
        → make_room T I (suc fuel) room len kept s ≡ none
    unfolding make_room
    null_head e h = elim (Option-cases kept) [
      | inl f ↦ rw (e, f, none_removed s h, make_room) refl
      | inr (y, f) ↦ rw (e, f, none_removed s h, make_room) refl
    ]

  one_gone :
      (fuel : ℕ) (room : Bool) (len : ℕ) (kept : Option ℕ) (s : Ids T I) (x : ℕ)
      → leb s.pkt_count_max s.pkt_count ≡ true
      → s.head ≡ some x
      → (make_room T I (suc fuel) room len kept s
          ≡ make_room T I fuel room len kept (give_back T I room x (rest_of x s)))
        ⊎ (make_room T I (suc fuel) room len kept s
            ≡ make_room T I fuel room len (some x) (rest_of x s))
  unfolding make_room
  one_gone fuel room len (some y) s x e h =
      inl (rw (e, head_removed x s h, head_removed x s h, make_room) refl)
  one_gone fuel room len none s x e h = elim (Bool-cases (length (id_bytes (s.entries x)) == len)) [
    | inl g ↦ inr (rw (e, head_removed x s h, g, head_removed x s h, make_room) refl)
    | inr g ↦ inl (rw (e, head_removed x s h, g, head_removed x s h, make_room) refl)
  ]

  rest_of-Counts :
      (x n limit : ℕ) (s : Ids T I) → Counts n limit s → Counts (sub32 n 1) limit (rest_of x s)
  rest_of-Counts x n limit s c = (ap (λ (m : ℕ). sub32 m 1) c.0, c.1)

  -- The loop leaves the count below the limit.
  abbrev pub Below : ℕ → Option ℕ × Ids T I → Type 0
  Below limit r = (r.1.pkt_count < limit) × (r.1.pkt_count_max ≡ limit)

  below_limit :
      (s : Ids T I) (n limit : ℕ)
      → Counts n limit s
      → leb s.pkt_count_max s.pkt_count ≡ false
      → s.pkt_count < limit
  below_limit s n limit c below = subst (λ (m : ℕ). s.pkt_count < m) c.1 (ground arith)

  no_result : (r : Option ℕ × Ids T I) → ¬ (none ≡ some r)
  no_result r = ground arith

  same_result : (q r : Option ℕ × Ids T I) → some q ≡ some r → q ≡ r
  same_result q r p = cc

  pub make_room-Below :
      (fuel : ℕ) (room : Bool) (len n limit : ℕ) (kept : Option ℕ) (s : Ids T I)
      (r : Option ℕ × Ids T I)
      → Counts n limit s
      → 0 < limit
      → n < word
      → n < fuel
      → make_room T I fuel room len kept s ≡ some r
      → Below limit r
  make_room-Below zero room len n limit kept s r c positive small enough e =
      absurd (ground (arith, enough))
  make_room-Below (suc fuel) room len n limit kept s r c positive small enough e =
      elim (Bool-cases (leb s.pkt_count_max s.pkt_count)) [
        | inr below ↦
            (subst (Below limit)
              (same_result (kept, s) r (sym (made_room fuel room len kept s below) ∙ e))
              (below_limit s n limit c below, c.1))
        | inl full ↦
            let least : 1 ≤ n =
              omega (arith, leb→le s.pkt_count_max s.pkt_count full, c.0, c.1, positive) in
            let counted : sub32 n 1 ≡ n - 1 = omega arith in
            elim (Option-cases s.head) [
              | inl h ↦ absurd (no_result r (sym (null_head fuel room len kept s full h) ∙ e))
              | inr (x, h) ↦ elim (one_gone fuel room len kept s x full h) [
                | inl step ↦
                    make_room-Below fuel room len (sub32 n 1) limit kept
                      (give_back T I room x (rest_of x s)) r
                      (give_back-Counts room x (sub32 n 1) limit (rest_of x s)
                        (rest_of-Counts x n limit s c))
                      positive (omega arith) (omega arith) (sym step ∙ e)
                | inr step ↦
                    make_room-Below fuel room len (sub32 n 1) limit (some x) (rest_of x s) r
                      (rest_of-Counts x n limit s c) positive (omega arith) (omega arith)
                      (sym step ∙ e)
              ]
            ]
      ]
