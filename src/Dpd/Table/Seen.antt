-- ===== src/Dpd/Table/Seen.antt =====
-- The ids of a flow without a limit: what has been received is found.
use nrlsmf.Base.{
  ℕ, ◌*◌, ◌≡◌, refl, sym, ap, ap₂, ◌∙◌, inl, inr, Bool, true, false, ◌||◌, Option, none, some, List,
  [], ◌∷◌, arith, Bool-cases, Option-cases, length, ◌==◌, ltb, leb, ◌&&◌,
}
use nrlsmf.Dpd.Links.{update, update_self}
use nrlsmf.Dpd.Tree.{KeyTree, TreeLaws}
use nrlsmf.Dpd.Table.{
  Entry, ItemPool, Ids, entry_key, set_pkt_id, set_entry_next, append_entry, set_arrival, link_last,
  from_pool, store_id, enter, table_is_duplicate, no_ids,
}

module _ (T : KeyTree) (laws : TreeLaws T) (I : ItemPool) where
  open T use {Key, key, key_eq, find}

  abbrev pub id_key : List ℕ → Key
  id_key id = key id (length id * 8)

  link_last-id :
      (x y : ℕ) (s : Ids T I) → ((link_last T I x s).entries y).pkt_id ≡ (s.entries y).pkt_id
  unfolding link_last set_entry_next
  link_last-id x y s = elim (Option-cases s.tail) [
    | inl e ↦ rw (e, link_last) refl
    | inr (t, e) ↦
        rw (e, link_last)
          (elim (Bool-cases (y == t)) [
            | inl same ↦ ground (arith, same)
            | inr other ↦ ground (arith, other)
          ])
  ]

  link_last-tree : (x : ℕ) (s : Ids T I) → (link_last T I x s).id_tree ≡ s.id_tree
  unfolding link_last set_entry_next
  link_last-tree x s = elim (Option-cases s.tail) [
    | inl e ↦ rw (e, link_last) refl
    | inr (t, e) ↦ rw (e, link_last) refl
  ]

  key_of : (e : Entry) (id : List ℕ) → e.pkt_id ≡ some id → entry_key T I e ≡ id_key id
  unfolding entry_key
  key_of e id h = ap (λ (o : Option (List ℕ)). id_key (elim o [ none ↦ [] | some b ↦ b ])) h

  -- The id of an entry that is stored is found from then on, and so is every id before.
  store_id-tree :
      (x now : ℕ) (e : Entry) (id : List ℕ) (s : Ids T I)
      → e.pkt_id ≡ some id
      → (store_id T I x now e s).id_tree ≡ T.insert (id_key id) x s.id_tree
  unfolding store_id append_entry set_arrival
  store_id-tree x now e id s h =
      let start : Ids T I = record s { entries = update s.entries x e } in
      let same : ((link_last T I x (set_arrival T I x now start)).entries x).pkt_id ≡ some id =
        link_last-id x x (set_arrival T I x now start)
        ∙ ap (λ (f : Entry). f.pkt_id) (update_self (update s.entries x e) _ x)
        ∙ ap (λ (f : Entry). f.pkt_id) (update_self s.entries e x)
        ∙ h in
      ap₂ (λ (k : Key) (t : T.Tree). T.insert k x t) (key_of _ id same)
        (link_last-tree x (set_arrival T I x now start))

  store_id-limit :
      (x now : ℕ) (e : Entry) (s : Ids T I)
      → (store_id T I x now e s).pkt_count_max ≡ s.pkt_count_max
  unfolding store_id append_entry set_arrival link_last set_entry_next
  store_id-limit x now e s = elim (Option-cases s.tail) [
    | inl f ↦ rw (f, store_id) refl
    | inr (t, f) ↦ rw (f, store_id) refl
  ]

  store_id-pools : (x now : ℕ) (e : Entry) (s : Ids T I) → (store_id T I x now e s).pools ≡ s.pools
  unfolding store_id append_entry set_arrival link_last set_entry_next
  store_id-pools x now e s = elim (Option-cases s.tail) [
    | inl f ↦ rw (f, store_id) refl
    | inr (t, f) ↦ rw (f, store_id) refl
  ]

  -- Some id of the list has the key.
  abbrev pub has_key : Key → List (List ℕ) → Bool
  has_key k [] = false
  has_key k (id ∷ ids) = key_eq k (id_key id) || has_key k ids

  abbrev found : Option ℕ → Bool
  found none = false
  found (some x) = true

  -- The flow has no limit and no pool, and finds the ids that it has received, and no other.
  pub record Knows (s : Ids T I) (ids : List (List ℕ)) : Type 0 where
    pub unlimited : s.pkt_count_max ≡ 0
    pub no_pool : (n : ℕ) → s.pools n ≡ none
    pub finds : (k : Key) → found (find k s.id_tree) ≡ has_key k ids

  pub no_ids-Knows : (entries : ℕ → Entry) → Knows (no_ids T I 0 entries (λ n. none)) []
  unfolding no_ids
  no_ids-Knows entries = record {
    unlimited = refl;
    no_pool = λ n. refl;
    finds = λ k. ap found (laws.find-empty k);
  }

  has_key-again :
      (k : Key) (id : List ℕ) (ids : List (List ℕ))
      → has_key (id_key id) ids ≡ true
      → has_key k ids ≡ (key_eq k (id_key id) || has_key k ids)
  has_key-again k id ids h = elim (Bool-cases (key_eq k (id_key id))) [
    | inl e ↦
        let same : k ≡ id_key id = (laws.key_eq_iff k (id_key id)).0 e in
        let t : has_key k ids ≡ true = ap (λ (j : Key). has_key j ids) same ∙ h in rw (e, t) refl
    | inr e ↦ rw e refl
  ]

  module _ (s : Ids T I) (ids : List (List ℕ)) (k : Knows s ids) (now : ℕ) (id : List ℕ)
      (x : ℕ) where
    abbrev written : Entry
    written = record { pkt_id = some id; arrival_time = 0; next = none }

    repeated :
        (y : ℕ)
        → find (id_key id) s.id_tree ≡ some y
        → table_is_duplicate T I now id (some x) true s ≡ some (true, s)
    unfolding table_is_duplicate
    repeated y e = rw (e, table_is_duplicate) refl

    no_limit : (ltb 0 s.pkt_count_max && leb s.pkt_count_max s.pkt_count) ≡ false
    no_limit = ap (λ (n : ℕ). ltb 0 n && leb n s.pkt_count) k.unlimited

    from_no_pool : from_pool T I (length id) s ≡ (none, s)
    unfolding from_pool
    from_no_pool = rw (k.no_pool (length id), from_pool) refl

    entered :
        find (id_key id) s.id_tree ≡ none
        → table_is_duplicate T I now id (some x) true s ≡ some (false, store_id T I x now written s)
    unfolding table_is_duplicate enter set_pkt_id
    entered e = rw (e, no_limit, from_no_pool, table_is_duplicate) refl

    learnt :
        find (id_key id) s.id_tree ≡ none
        → (j : Key) → found (find j (store_id T I x now written s).id_tree) ≡ has_key j (id ∷ ids)
    learnt e j =
        ap (λ (t : T.Tree). found (find j t)) (store_id-tree x now written id s refl)
        ∙ ap found (laws.find-insert j (id_key id) x s.id_tree e)
        ∙ elim (Bool-cases (key_eq j (id_key id))) [ inl f ↦ rw f refl | inr f ↦ rw f (k.finds j) ]

    -- What IsDuplicate returns, and what the flow knows then.
    abbrev pub Answers : Bool × Ids T I → Type 0
    Answers r =
        (table_is_duplicate T I now id (some x) true s ≡ some r)
        × (r.0 ≡ has_key (id_key id) ids)
        × Knows r.1 (id ∷ ids)

    pub answer : (r : Bool × Ids T I) × Answers r
    answer = elim (Option-cases (find (id_key id) s.id_tree)) [
      | inr (y, e) ↦
          let h : has_key (id_key id) ids ≡ true = sym (k.finds (id_key id)) ∙ ap found e in
          (
            (true, s),
            (
              repeated y e,
              sym h,
              record {
                unlimited = k.unlimited;
                no_pool = k.no_pool;
                finds = λ j. k.finds j ∙ has_key-again j id ids h;
              },
            ),
          )
      | inl e ↦
          let h : has_key (id_key id) ids ≡ false = sym (k.finds (id_key id)) ∙ ap found e in
          (
            (false, store_id T I x now written s),
            (
              entered e,
              sym h,
              record {
                unlimited = store_id-limit x now written s ∙ k.unlimited;
                no_pool = λ n. ap (λ f. f n) (store_id-pools x now written s) ∙ k.no_pool n;
                finds = learnt e;
              },
            ),
          )
    ]
