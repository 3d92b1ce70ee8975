-- ===== src/Dpd/Flows/Laws.antt =====
-- The operations of SmfFlow::List keep the list, the tree and the count in step.
use nrlsmf.Base.{
  ℕ, suc, ◌<◌, ◌≡◌, refl, sym, ap, ◌∙◌, none, some, List, [], ◌∷◌, ◌++◌, arith, if◌then◌else◌,
  length, length-append, word,
}
use nrlsmf.Dpd.Tree.{KeyTree, TreeLaws}
use nrlsmf.Dpd.Links.Seg.{Apart}
use nrlsmf.Dpd.Links.Order.{
  Holds, append_to_list-Holds, remove_from_list-Holds, move_to_tail-Holds, no_links-Holds,
}
use nrlsmf.Dpd.Flows.Search.{
  search, Lacks, Keyed, Keyed-middle, Keyed-snoc, search-Lacks, search-snoc, search-remove,
  search-middle, search-move, search-frame, Keyed-frame,
}
use nrlsmf.Dpd.Flows.{Flows, flow_init, set_item, append, remove_flow, to_tail, no_flows}

module _ (T : KeyTree) (laws : TreeLaws T) {A : Type 0} where
  open T use {Key, key, key_eq, Tree, empty, find, insert, remove}

  -- The list holds the flows `xs`, stalest first, no two with one key, and the tree finds them.
  pub record Lists (f : Flows T A) (xs : List ℕ) : Type 0 where
    pub links_hold : Holds f.links xs
    pub counted : f.count ≡ length xs
    pub keyed : Keyed key_eq laws.key_eq_iff f.flow_id xs
    pub finds : (k : Key) → find k f.tree ≡ search key_eq laws.key_eq_iff f.flow_id k xs

  pub no_flows-Lists : (ids : ℕ → Key) (items : ℕ → A) → Lists (no_flows T ids items) []
  unfolding no_flows
  no_flows-Lists ids items = record {
    links_hold = no_links-Holds;
    counted = refl;
    keyed = tt;
    finds = λ k. laws.find-empty k;
  }

  pub set_item-Lists :
      (f : Flows T A) (x : ℕ) (a : A) (xs : List ℕ) → Lists f xs → Lists (set_item T x a f) xs
  unfolding set_item
  set_item-Lists f x a xs h = record {
    links_hold = h.links_hold;
    counted = h.counted;
    keyed = h.keyed;
    finds = h.finds;
  }

  -- The id of a flow that is not listed yet.
  pub flow_init-Lists :
      (f : Flows T A) (x : ℕ) (id : List ℕ) (bits : ℕ) (xs : List ℕ)
      → Apart x xs
      → Lists f xs
      → Lists (flow_init T x id bits f) xs
  unfolding flow_init
  flow_init-Lists f x id bits xs a h = record {
    links_hold = h.links_hold;
    counted = h.counted;
    keyed = Keyed-frame key_eq laws.key_eq_iff f.flow_id x _ xs a h.keyed;
    finds = λ k. h.finds k ∙ sym (search-frame key_eq laws.key_eq_iff f.flow_id x _ k xs a);
  }

  -- If the key tree keeps its laws, Append to a sound list of fewer than `2 ^ 32 - 1` flows, of
  -- a flow at a new address and with a key that is not found, makes the flow the last one; the
  -- links, the count and what the tree finds stay in step.
  pub append-Lists :
      (f : Flows T A) (x : ℕ) (xs : List ℕ)
      → Apart x xs
      → find (f.flow_id x) f.tree ≡ none
      → suc (length xs) < word
      → Lists f xs
      → Lists (append T x f) (xs ++ (x ∷ []))
  unfolding append
  append-Lists f x xs a new small h = record {
    links_hold = append_to_list-Holds f.links x xs a h.links_hold;
    counted = omega (arith, h.counted, length-append xs (x ∷ []));
    keyed = Keyed-snoc key_eq laws.key_eq_iff f.flow_id x xs lacks h.keyed;
    finds = λ k.
        laws.find-insert k (f.flow_id x) x f.tree new
        ∙ ap (λ o. if key_eq k (f.flow_id x) then some x else o) (h.finds k)
        ∙ sym (search-snoc key_eq laws.key_eq_iff f.flow_id k x xs lacks);
  }
    where
      lacks : Lacks key_eq laws.key_eq_iff f.flow_id (f.flow_id x) xs
      lacks =
          search-Lacks key_eq laws.key_eq_iff f.flow_id (f.flow_id x) xs
            (sym (h.finds (f.flow_id x)) ∙ new)

  -- If the key tree keeps its laws, Remove of a flow of a sound list, of fewer than `2 ^ 32`
  -- flows, takes the flow out and leaves the others in order; the links, the count and what the
  -- tree finds stay in step.
  pub remove_flow-Lists :
      (f : Flows T A) (x : ℕ) (ys zs : List ℕ)
      → length (ys ++ (x ∷ zs)) < word
      → Lists f (ys ++ (x ∷ zs))
      → Lists (remove_flow T x f) (ys ++ zs)
  unfolding remove_flow
  remove_flow-Lists f x ys zs small h = record {
    links_hold = remove_from_list-Holds f.links x ys zs h.links_hold;
    counted = omega (arith, h.counted, length-append ys zs, length-append ys (x ∷ zs), small);
    keyed = (Keyed-middle key_eq laws.key_eq_iff f.flow_id x ys zs h.keyed).1;
    finds = λ k.
        laws.find-remove k (f.flow_id x) x f.tree
          (h.finds (f.flow_id x) ∙ search-middle key_eq laws.key_eq_iff f.flow_id x ys zs h.keyed)
        ∙ ap (λ o. if key_eq k (f.flow_id x) then none else o) (h.finds k)
        ∙ sym (search-remove key_eq laws.key_eq_iff f.flow_id k x ys zs h.keyed);
  }

  -- If the key tree keeps its laws, MoveToTail of a flow of a sound list makes it the last one
  -- and keeps the order of the others; the links, the count and what the tree finds stay in
  -- step.
  pub to_tail-Lists :
      (f : Flows T A) (x : ℕ) (ys zs : List ℕ)
      → Lists f (ys ++ (x ∷ zs))
      → Lists (to_tail T x f) ((ys ++ zs) ++ (x ∷ []))
  unfolding to_tail
  to_tail-Lists f x ys zs h = record {
    links_hold = move_to_tail-Holds f.links x ys zs h.links_hold;
    counted = omega (
      arith,
      h.counted,
      length-append ys (x ∷ zs),
      length-append (ys ++ zs) (x ∷ []),
      length-append ys zs,
    );
    keyed = Keyed-snoc key_eq laws.key_eq_iff f.flow_id x (ys ++ zs) m.0 m.1;
    finds = λ k. h.finds k ∙ search-move key_eq laws.key_eq_iff f.flow_id k x ys zs h.keyed;
  }
    where
      m :
          Lacks key_eq laws.key_eq_iff f.flow_id (f.flow_id x) (ys ++ zs)
          × Keyed key_eq laws.key_eq_iff f.flow_id (ys ++ zs)
      m = Keyed-middle key_eq laws.key_eq_iff f.flow_id x ys zs h.keyed
