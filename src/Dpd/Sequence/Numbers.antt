-- ===== src/Dpd/Sequence/Numbers.antt =====
-- The numbers that SmfSequenceMgr hands out.
use nrlsmf.Base.{
  ℕ, ◌+◌, ◌-◌, ◌*◌, ◌%◌, ◌^◌, ◌≤◌, ◌≡◌, ◌≢◌, refl, sym, ap, ap₂, subst, ◌∙◌, inl, inr, Option, none,
  some, List, ◌∷◌, arith, if◌then◌else◌, Option-cases, Bool-cases, take, bit_and, word, false,
}
use nrlsmf.Base.Bits.{bit_and_mask, pow-add}
use Prim.Native.Nat.{◌∣◌}
use native.Mathlib.Nat.{mod-mod_of_dvd, mod-add-mod, dvd-mul_left}
use nrlsmf.Dpd.Tree.{KeyTree, TreeLaws, bytes_of}
use nrlsmf.Dpd.Links.{update, update_self, update-ne}
use nrlsmf.Dpd.Links.Seg.{Apart, Apart-split}
use nrlsmf.Dpd.Flows.Search.{search-found}
use nrlsmf.Dpd.Flows.Laws.{Lists}
use nrlsmf.Dpd.Flows.{flow_init, set_item, find_flow, append, to_tail}
use nrlsmf.Dpd.Sequence.{
  SeqFlow, Address, addr_key, addr_bits, SequenceMgr, increment, take_number, touch, add,
  increment_sequence, get_sequence,
}

next_mod : (b s : ℕ) → b ≤ 32 → (s + 1) % word % 2 ^ b ≡ (s % 2 ^ b + 1) % 2 ^ b
next_mod b s h = mod-mod_of_dvd (2 ^ b) (s + 1) divides ∙ sym (mod-add-mod s (2 ^ b) 1)
  where
    whole : 2 ^ (32 - b) * 2 ^ b ≡ word
    whole = sym (pow-add (32 - b) b) ∙ ap (λ (t : ℕ). 2 ^ t) {y = 32} (omega arith)

    divides : 2 ^ b ∣ word
    divides = subst (λ (w : ℕ). 2 ^ b ∣ w) whole (dvd-mul_left (2 ^ b) (2 ^ (32 - b)))

module _ (T : KeyTree) (laws : TreeLaws T) where
  open T use {Key, key, key_eq, Tree, empty, find, insert, remove}

  abbrev pub addr_id : Option Address → Option Address → Key
  addr_id dst src = key (addr_key dst src) (addr_bits dst src)

  module _ (m : SequenceMgr T) (time rand : ℕ) (dst src : Option Address) where
    -- The flow of an address pair is there: it is touched and used.
    pub known :
        (x : ℕ) (n : Option ℕ)
        → find (addr_id dst src) m.flow_list.tree ≡ some x
        → increment_sequence T time dst src n rand m ≡ take_number T x (touch T time x m)
    known x n e = unfold increment_sequence find_flow in rw (e, increment_sequence)

    -- It is not: a flow is made at the address that `new` gave.
    pub unknown :
        (x : ℕ)
        → find (addr_id dst src) m.flow_list.tree ≡ none
        → increment_sequence T time dst src (some x) rand m
          ≡ take_number T x (add T time rand x (addr_key dst src) (addr_bits dst src) m)
    unknown x e = unfold increment_sequence find_flow in rw (e, increment_sequence)

  -- What an increment leaves: the flow of the pair is found, and holds the number after `s`.
  record Counted (r : ℕ × SequenceMgr T) (k : Key) (s mask : ℕ) : Type 0 where
    given : r.0 ≡ bit_and s mask
    flow : ℕ
    found : find k r.1.flow_list.tree ≡ some flow
    next : (r.1.flow_list.item flow).sequence ≡ (s + 1) % word
    same_mask : r.1.seq_mask ≡ mask

  taken :
      (m : SequenceMgr T) (k : Key) (y mask : ℕ)
      → find k m.flow_list.tree ≡ some y
      → m.seq_mask ≡ mask
      → Counted (take_number T y m) k (m.flow_list.item y).sequence mask
  unfolding take_number set_item increment
  taken m k y mask e same = record {
    given = ap (bit_and (m.flow_list.item y).sequence) same;
    flow = y;
    found = e;
    next = ap (λ (f : SeqFlow). f.sequence) (update_self m.flow_list.item _ y);
    same_mask = same;
  }

  take-tree : (m : SequenceMgr T) (x : ℕ) → (take_number T x m).1.flow_list.tree ≡ m.flow_list.tree
  unfolding take_number set_item
  take-tree m x = refl

  touch-tree :
      (m : SequenceMgr T) (time x : ℕ) → (touch T time x m).flow_list.tree ≡ m.flow_list.tree
  unfolding touch set_item to_tail
  touch-tree m time x = refl

  add-find :
      (m : SequenceMgr T) (time rand x : ℕ) (id : List ℕ) (bits : ℕ) (j : Key)
      → find (key id bits) m.flow_list.tree ≡ none
      → find j (add T time rand x id bits m).flow_list.tree
        ≡ (if key_eq j (key id bits) then some x else find j m.flow_list.tree)
  unfolding add set_item append flow_init
  add-find m time rand x id bits j e =
      let own : update m.flow_list.flow_id x (key (take (bytes_of bits) id) bits) x ≡ key id bits =
        update_self m.flow_list.flow_id _ x ∙ laws.key-take id bits in
      rw own (laws.find-insert j (key id bits) x m.flow_list.tree e)

  increment-Counted :
      (m : SequenceMgr T) (time rand x : ℕ) (dst src : Option Address)
      → (s : ℕ) × Counted
          (increment_sequence T time dst src (some x) rand m)
          (addr_id dst src)
          s
          m.seq_mask
  increment-Counted m time rand x dst src =
      elim (Option-cases (find (addr_id dst src) m.flow_list.tree)) [
        | inr (y, e) ↦ (
          ((touch T time y m).flow_list.item y).sequence,
          rw (known m time rand dst src y (some x) e) (
              taken (touch T time y m) (addr_id dst src) y m.seq_mask (rw (touch-tree m time y) e)
                (unfold touch in refl)),
        )
        | inl e ↦
            let f : find (addr_id dst src)
                  (add T time rand x (addr_key dst src) (addr_bits dst src) m).flow_list.tree
                ≡ some x =
              rw
                (
                  add-find m time rand x (addr_key dst src) (addr_bits dst src) (addr_id dst src) e,
                  (laws.key_eq_iff (addr_id dst src) (addr_id dst src)).1 refl,
                )
                refl in
            (
              ((add T time rand x (addr_key dst src) (addr_bits dst src) m).flow_list.item
                  x).sequence,
              rw (unknown m time rand dst src x e) (
                  taken (add T time rand x (addr_key dst src) (addr_bits dst src) m)
                    (addr_id dst src) x m.seq_mask f (unfold add in refl)),
            )
      ]

  -- What an increment returns for a flow that is there.
  known_number :
      (m : SequenceMgr T) (time rand y : ℕ) (dst src : Option Address) (n : Option ℕ)
      → find (addr_id dst src) m.flow_list.tree ≡ some y
      → (increment_sequence T time dst src n rand m).0
        ≡ bit_and (m.flow_list.item y).sequence m.seq_mask
  known_number m time rand y dst src n e = rw (known m time rand dst src y n e) (
      unfold take_number touch set_item to_tail increment in
      ap (λ (f : SeqFlow). bit_and f.sequence m.seq_mask) (update_self m.flow_list.item _ y))

  -- If the key tree keeps its laws and the mask of the manager is that of `b` bits, with `b` at
  -- most 32, then two calls of IncrementSequence for one pair of addresses, one right after the
  -- other and with memory for a flow in each, return consecutive numbers modulo `2 ^ b`,
  -- whatever the manager held before.
  pub increment_consecutive :
      (m : SequenceMgr T) (b time time' rand rand' x x' : ℕ) (dst src : Option Address)
      → b ≤ 32
      → m.seq_mask ≡ 2 ^ b - 1
      → let (s, m') = increment_sequence T time dst src (some x) rand m in
        (increment_sequence T time' dst src (some x') rand' m').0 ≡ (s + 1) % 2 ^ b
  increment_consecutive m b time time' rand rand' x x' dst src hb mask =
      let c = increment-Counted m time rand x dst src in
      known_number _ time' rand' c.1.flow dst src (some x') c.1.found
      ∙ ap₂ bit_and c.1.next (c.1.same_mask ∙ mask)
      ∙ bit_and_mask b ((c.0 + 1) % word)
      ∙ next_mod b c.0 hb
      ∙ ap (λ t. (t + 1) % 2 ^ b) (sym (c.1.given ∙ ap (bit_and c.0) mask ∙ bit_and_mask b c.0))

  -- The number of a flow that is found; 0 for none.
  number : SequenceMgr T → Option ℕ → ℕ
  number m none = 0
  number m (some p) = (m.flow_list.item p).sequence

  get_sequence_lem :
      (m : SequenceMgr T) (dst src : Option Address)
      → get_sequence T dst src m ≡ number m (find (addr_id dst src) m.flow_list.tree)
  unfolding get_sequence find_flow number
  get_sequence_lem m dst src = ground arith

  module _ (m : SequenceMgr T) (y : ℕ) (o : Option ℕ) (apart : (p : ℕ) → o ≡ some p → y ≢ p) where
    take-other : number (take_number T y m).1 o ≡ number m o
    take-other = elim (Option-cases o) [
      | inl e ↦ rw e (unfold number in refl)
      | inr (p, e) ↦ rw e (
          unfold number take_number set_item in
          ap (λ (f : SeqFlow). f.sequence) (update-ne m.flow_list.item _ y p (apart p e)))
    ]

    touch-other : (time : ℕ) → number (touch T time y m) o ≡ number m o
    touch-other time = elim (Option-cases o) [
      | inl e ↦ rw e (unfold number in refl)
      | inr (p, e) ↦ rw e (
          unfold number touch set_item to_tail in
          ap (λ (f : SeqFlow). f.sequence) (update-ne m.flow_list.item _ y p (apart p e)))
    ]

    add-other :
        (time rand : ℕ) (id : List ℕ) (bits : ℕ)
        → number (add T time rand y id bits m) o ≡ number m o
    add-other time rand id bits = elim (Option-cases o) [
      | inl e ↦ rw e (unfold number in refl)
      | inr (p, e) ↦ rw e (
          unfold number add set_item append flow_init in
          ap (λ (f : SeqFlow). f.sequence) (update-ne m.flow_list.item _ y p (apart p e)))
    ]

  module _ (m : SequenceMgr T) (xs : List ℕ) (h : Lists T laws m.flow_list xs) where
    listed :
        (k : Key) (p : ℕ)
        → find k m.flow_list.tree ≡ some p
        → (m.flow_list.flow_id p ≡ k) × ((x : ℕ) → Apart x xs → p ≢ x)
    listed k p e =
        let r =
          search-found key_eq laws.key_eq_iff m.flow_list.flow_id k p xs (sym (h.finds k) ∙ e) in
        (r.3, λ x a s. (Apart-split x r.0 (p ∷ r.1) (subst (Apart x) r.2 a)).1.0 (sym s))

    -- The flow that an increment for one key uses is not that of another.
    other_flow :
        (j k : Key) (p y : ℕ)
        → j ≢ k
        → find j m.flow_list.tree ≡ some p
        → find k m.flow_list.tree ≡ some y
        → y ≢ p
    other_flow j k p y ne e e' s =
        ne (sym (listed j p e).0 ∙ ap m.flow_list.flow_id (sym s) ∙ (listed k y e').0)

    module _ (time rand x : ℕ) (dst src dst' src' : Option Address) (a : Apart x xs)
        (ne : addr_id dst' src' ≢ addr_id dst src) where
      abbrev other : Option ℕ
      other = find (addr_id dst' src') m.flow_list.tree

      abbrev made : SequenceMgr T
      made = add T time rand x (addr_key dst src) (addr_bits dst src) m

      keys_differ : key_eq (addr_id dst' src') (addr_id dst src) ≡ false
      keys_differ = elim (Bool-cases (key_eq (addr_id dst' src') (addr_id dst src))) [
        | inl t ↦ absurd (ne ((laws.key_eq_iff (addr_id dst' src') (addr_id dst src)).0 t))
        | inr f ↦ f
      ]

      kept_number :
          (y : ℕ)
          → find (addr_id dst src) m.flow_list.tree ≡ some y
          → get_sequence T dst' src' (take_number T y (touch T time y m)).1 ≡ number m other
      kept_number y e =
          let apart = λ (p : ℕ) (s : other ≡ some p).
            other_flow (addr_id dst' src') (addr_id dst src) p y ne s e in
          get_sequence_lem _ dst' src'
          ∙ ap (λ t. number (take_number T y (touch T time y m)).1 (find (addr_id dst' src') t))
              (take-tree (touch T time y m) y ∙ touch-tree m time y)
          ∙ take-other (touch T time y m) y other apart
          ∙ touch-other m y other apart time

      made-number :
          find (addr_id dst src) m.flow_list.tree ≡ none
          → get_sequence T dst' src' (take_number T x made).1 ≡ number m other
      made-number e =
          let apart = λ (p : ℕ) (s : other ≡ some p) (t : x ≡ p).
            (listed (addr_id dst' src') p s).1 x a (sym t) in
          get_sequence_lem _ dst' src'
          ∙ ap (λ t. number (take_number T x made).1 (find (addr_id dst' src') t))
              (take-tree made x)
          ∙ ap (number (take_number T x made).1) (
              add-find m time rand x (addr_key dst src) (addr_bits dst src) (addr_id dst' src') e
              ∙ ap (λ b. if b then some x else other) keys_differ)
          ∙ take-other made x other apart
          ∙ add-other m x other apart time rand (addr_key dst src) (addr_bits dst src)

      -- If the key tree keeps its laws, the flow list is sound and the address for a new flow
      -- is not in it, then IncrementSequence for one pair of addresses leaves what GetSequence
      -- returns for every pair with another key.
      pub get_sequence-other :
          get_sequence T dst' src' (increment_sequence T time dst src (some x) rand m).1
          ≡ get_sequence T dst' src' m
      get_sequence-other = elim (Option-cases (find (addr_id dst src) m.flow_list.tree)) [
        | inr (y, e) ↦ rw (known m time rand dst src y (some x) e) (kept_number y e ∙ back)
        | inl e ↦ rw (unknown m time rand dst src x e) (made-number e ∙ back)
      ]
        where
          back : number m other ≡ get_sequence T dst' src' m
          back = sym (get_sequence_lem m dst' src')
