-- ===== src/Dpd/Sequence/Order.antt =====
-- The list of SmfSequenceMgr: sound, and in the order of the last updates, whatever is asked of it.
use nrlsmf.Base.{
  ℕ, suc, ◌<◌, ◌≡◌, refl, sym, ap, subst, ◌∙◌, inl, inr, Option, none, some, List, [], ◌∷◌, ◌++◌,
  arith, Option-cases, length, word, bit_and, take,
}
use nrlsmf.Dpd.Tree.{KeyTree, TreeLaws, bytes_of}
use nrlsmf.Dpd.Links.{update, update_self}
use nrlsmf.Dpd.Links.Seg.{Apart, Apart-append, Distinct-middle}
use nrlsmf.Dpd.Flows.Search.{search-found}
use nrlsmf.Dpd.Flows.Prune.{age, Aged, Aged-frame, Aged-remove, Aged-snoc, fresh, prune_list-Lists}
use nrlsmf.Dpd.Flows.Laws.{Lists, append-Lists, to_tail-Lists, set_item-Lists, flow_init-Lists}
use nrlsmf.Dpd.Flows.{flow_init, set_item, append, to_tail}
use nrlsmf.Dpd.Sequence.{
  SeqFlow, Address, addr_key, addr_bits, SequenceMgr, increment, take_number, touch, add,
  increment_sequence, seq_prune,
}
use nrlsmf.Dpd.Sequence.Numbers.{addr_id, known, unknown}

abbrev pub last_update : SeqFlow → ℕ
last_update f = f.update_time

module _ (T : KeyTree) (laws : TreeLaws T) where
  open T use {find}

  -- The manager lists `xs`, in the order of their last updates as seen at `now`.
  pub record Kept (now : ℕ) (m : SequenceMgr T) (xs : List ℕ) : Type 0 where
    pub lists : Lists T laws m.flow_list xs
    pub aged : Aged last_update now 0 m.flow_list.item xs

  module _ (m : SequenceMgr T) (now : ℕ) (small : now < word) where
    take_number-Kept :
        (x : ℕ) (ys : List ℕ)
        → Apart x ys
        → (m.flow_list.item x).update_time ≡ now
        → Lists T laws m.flow_list (ys ++ (x ∷ []))
        → Aged last_update now 0 m.flow_list.item ys
        → Kept now (take_number T x m).1 (ys ++ (x ∷ []))
    unfolding take_number set_item increment
    take_number-Kept x ys a t h g =
        let v = (increment m.seq_mask (m.flow_list.item x)).1 in
        let age_zero : age now (update m.flow_list.item x v x).update_time ≡ 0 =
          rw (update_self m.flow_list.item v x, t) (omega arith) in
        record {
          lists = set_item-Lists T laws m.flow_list x v (ys ++ (x ∷ [])) h;
          aged =
              Aged-snoc last_update now 0 (update m.flow_list.item x v) x ys age_zero
                (Aged-frame last_update now 0 m.flow_list.item x v ys a g);
        }

  module _ (m : SequenceMgr T) (now rand x : ℕ) (xs : List ℕ) (dst src : Option Address)
      (small : now < word) (room : suc (length xs) < word) (a : Apart x xs)
      (h : Kept now m xs) where
    touched :
        (y : ℕ)
        → find (addr_id T laws dst src) m.flow_list.tree ≡ some y
        → (ys : List ℕ) × Kept now (take_number T y (touch T now y m)).1 ys
    unfolding touch set_item to_tail
    touched y e =
        let r =
          search-found T.key_eq laws.key_eq_iff m.flow_list.flow_id (addr_id T laws dst src) y xs
            (sym (h.lists.finds (addr_id T laws dst src)) ∙ e) in
        let ys = r.0 in
        let zs = r.1 in
        let v = record (m.flow_list.item y) { update_time = now } in
        let l : Lists T laws m.flow_list (ys ++ (y ∷ zs)) =
          subst (Lists T laws m.flow_list) r.2 h.lists in
        let g : Aged last_update now 0 m.flow_list.item (ys ++ (y ∷ zs)) =
          subst (Aged last_update now 0 m.flow_list.item) r.2 h.aged in
        let d = Distinct-middle y ys zs l.links_hold.distinct in
        let b = Apart-append y ys zs d.0 d.1 in
        (
          (ys ++ zs) ++ (y ∷ []),
          take_number-Kept (touch T now y m) now small y (ys ++ zs) b
              (ap (λ (f : SeqFlow). f.update_time) (update_self m.flow_list.item v y))
              (to_tail-Lists T laws (set_item T y v m.flow_list) y ys zs
                (set_item-Lists T laws m.flow_list y v (ys ++ (y ∷ zs)) l))
              (Aged-frame last_update now 0 m.flow_list.item y v (ys ++ zs) b
                (Aged-remove last_update now 0 m.flow_list.item y ys zs g)),
        )

    added :
        find (addr_id T laws dst src) m.flow_list.tree ≡ none
        → (ys : List ℕ) × Kept now
            (take_number T x (add T now rand x (addr_key dst src) (addr_bits dst src) m)).1
            ys
    unfolding add set_item append flow_init
    added e =
        let id = addr_key dst src in
        let bits = addr_bits dst src in
        let f = flow_init T x id bits m.flow_list in
        let own : update m.flow_list.flow_id x (T.key (take (bytes_of bits) id) bits) x
            ≡ T.key id bits =
          update_self m.flow_list.flow_id _ x ∙ laws.key-take id bits in
        let v : SeqFlow = record { sequence = bit_and rand m.seq_mask; update_time = now } in
        (
          xs ++ (x ∷ []),
          take_number-Kept (add T now rand x id bits m) now small x xs a
              (ap (λ (f : SeqFlow). f.update_time) (update_self m.flow_list.item v x))
              (append-Lists T laws (set_item T x v f) x xs a (rw own e) room (
                set_item-Lists T laws f x v xs
                  (flow_init-Lists T laws m.flow_list x id bits xs a h.lists)))
              (Aged-frame last_update now 0 m.flow_list.item x v xs a h.aged),
        )

    -- If the key tree keeps its laws, the manager's list is sound and in the order of the last
    -- updates as seen at `now`, with fewer than `2 ^ 32 - 1` flows, and the address for a new
    -- flow is not in it, then after IncrementSequence at the time `now`, a 32-bit word, the
    -- list is sound and in that order again.
    pub increment-Kept :
        (ys : List ℕ) × Kept now (increment_sequence T now dst src (some x) rand m).1 ys
    increment-Kept = elim (Option-cases (find (addr_id T laws dst src) m.flow_list.tree)) [
      | inr (y, e) ↦
          let r = touched y e in (r.0, rw (known T laws m now rand dst src y (some x) e) r.1)
      | inl e ↦ let r = added e in (r.0, rw (unknown T laws m now rand dst src x e) r.1)
    ]

  -- Prune at a time when the list stands in the order of the last updates removes the flows older
  -- than `age_max`, and them alone.
  pub seq_prune-Lists :
      (m : SequenceMgr T) (now age_max : ℕ) (xs : List ℕ)
      → length xs < word
      → Aged last_update now age_max m.flow_list.item xs
      → Lists T laws m.flow_list xs
      → Lists T laws
          (seq_prune T now age_max m).flow_list
          (fresh last_update now age_max m.flow_list.item xs)
  unfolding seq_prune
  seq_prune-Lists m now age_max xs small g h =
      prune_list-Lists T laws last_update now age_max m.flow_list.item m.flow_list xs refl small g h
