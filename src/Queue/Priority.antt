-- ===== src/Queue/Priority.antt =====
-- The queue as two sequences: the packets of low priority and those of high priority.
use mathlib.Core.List.{append-nil}
use nrlsmf.Base.{
  ℕ, suc, ◌<◌, ◌≡◌, refl, sym, ap, ◌∙◌, inl, inr, Bool, true, false, Option, none, some, List, [],
  ◌∷◌, ◌++◌, arith, if◌then◌else◌, Bool-cases, length, length-append, word,
}
use nrlsmf.Dpd.Links.Seg.{first, Apart, Distinct, Apart-append, Apart-split, Distinct-middle}
use nrlsmf.Queue.Store.{PacketList, Laws}
use nrlsmf.Queue.{Queue, same, at_limit, bump, place, enqueue_packet}

-- Newest first in each: `low` are the packets without priority, `high` those with it.
pub record Levels : Type 0 where
  pub low : List ℕ
  pub high : List ℕ

abbrev pub all : Levels → List ℕ
all v = v.low ++ v.high

abbrev full_offer : ℕ → Levels → Bool × Levels
full_offer p v = elim v.low [
  | [] ↦ (false, v)
  | n ∷ low ↦ (true, record { low = low; high = p ∷ v.high })
]

-- What a queue with room or none does with a packet. A priority packet pushes the newest packet
-- without priority out of a full queue.
unfoldable pub offer : Bool → ℕ → Bool → Levels → Bool × Levels
offer full p prioritize v =
    if prioritize
    then (if full then full_offer p v else (true, record v { high = p ∷ v.high }))
    else if full
    then (false, v)
    else (true, record v { low = p ∷ v.low })

-- The oldest priority packet, or else the oldest packet.
abbrev pub split_last : List ℕ → Option (List ℕ × ℕ)
split_last [] = none
split_last (x ∷ xs) = elim (split_last xs) [ none ↦ some ([], x) | some r ↦ some (x ∷ r.0, r.1) ]

unfoldable pub serve : Levels → Option ℕ × Levels
serve v = elim (split_last v.high) [
  | some r ↦ (some r.1, record v { high = r.0 })
  | none ↦ elim (split_last v.low) [
    | some r ↦ (some r.1, record v { low = r.0 })
    | none ↦ (none, v)
  ]
]

pub split_last-snoc : (xs : List ℕ) (x : ℕ) → split_last (xs ++ (x ∷ [])) ≡ some (xs, x)
split_last-snoc [] x = refl
split_last-snoc (y ∷ xs) x = rw (split_last-snoc xs x) refl

same_iff_ne : (x y : ℕ) → (¬ (x ≡ y)) → same (some x) (some y) ≡ false
same_iff_ne x y h = ground (arith, h)

Distinct-insert :
    (p : ℕ) (xs ys : List ℕ) → Apart p (xs ++ ys) → Distinct (xs ++ ys) → Distinct (xs ++ (p ∷ ys))
Distinct-insert p [] ys a d = (a, d)
Distinct-insert p (x ∷ xs) ys a d =
    let s = Apart-split x xs ys d.0 in
    (Apart-append x xs (p ∷ ys) s.0 (λ e. a.0 (sym e), s.1), Distinct-insert p xs ys a.1 d.1)

module _ (P : PacketList) (laws : Laws P) where
  -- The queue holds the two levels.
  pub record Queued (q : Queue P) (v : Levels) : Type 0 where
    pub items_are : P.items q.packets ≡ all v
    pub index_is : q.priority_index ≡ first v.high none
    pub counted : q.queue_length ≡ length (all v)
    pub distinct : Distinct (all v)

  module _ (q : Queue P) (ns : List ℕ) (p : ℕ) where
    grown : (hs : List ℕ) → length (ns ++ (p ∷ hs)) ≡ suc (length (ns ++ hs))
    grown hs = omega (arith, length-append ns (p ∷ hs), length-append ns hs)

    place-Queued :
        (hs : List ℕ)
        → Queued q (record { low = ns; high = hs })
        → Apart p (ns ++ hs)
        → suc (length (ns ++ hs)) < word
        → Queued (place P p q) (record { low = ns; high = p ∷ hs })
    unfolding place
    place-Queued [] h a small = rw h.index_is (record {
      items_are =
          laws.items-append p q.packets
          ∙ ap (λ (l : List ℕ). l ++ (p ∷ [])) (h.items_are ∙ append-nil ns);
      index_is = refl;
      counted = omega (arith, h.counted, grown [], small);
      distinct = Distinct-insert p ns [] a h.distinct;
    })
    place-Queued (x ∷ hs) h a small = rw h.index_is (record {
      items_are =
          laws.items-insert p x ns hs q.packets (Distinct-middle x ns hs h.distinct).0 h.items_are;
      index_is = refl;
      counted = omega (arith, h.counted, grown (x ∷ hs), small);
      distinct = Distinct-insert p ns (x ∷ hs) a h.distinct;
    })

  module _ (q : Queue P) (n : ℕ) (ns hs : List ℕ) (pool : Option P.Pool) where
    bump-Queued :
        Queued q (record { low = n ∷ ns; high = hs })
        → length (n ∷ (ns ++ hs)) < word
        → Queued (bump P q pool).0 (record { low = ns; high = hs })
    unfolding bump
    bump-Queued h small = record {
      items_are = (laws.remove_head-some n (ns ++ hs) q.packets h.items_are).1;
      index_is = h.index_is;
      counted = omega (arith, h.counted, small);
      distinct = h.distinct.1;
    }

  head_lem : (q : Queue P) (v : Levels) → Queued q v → P.get_head q.packets ≡ first (all v) none
  head_lem q v h = laws.head_is q.packets ∙ ap (λ (l : List ℕ). first l none) h.items_are

  same_self : (o : Option ℕ) → same o o ≡ true
  same_self none = refl
  same_self (some x) = ground arith

  other_head : (n : ℕ) (ns hs : List ℕ) → Apart n (ns ++ hs) → same (some n) (first hs none) ≡ false
  other_head n ns [] a = refl
  other_head n ns (x ∷ hs) a = same_iff_ne n x (Apart-split n ns (x ∷ hs) a).1.0

  module _ (q : Queue P) (p : ℕ) (pool : Option P.Pool) where
    abbrev full : Bool
    full = at_limit q.queue_limit q.queue_length

    abbrev Accepts : Bool → Levels → Type 0
    Accepts prioritize v =
        let r = enqueue_packet P p prioritize pool q in
        let o = offer full p prioritize v in (r.0 ≡ o.0) × Queued r.1.0 o.1

    module _ (ns hs : List ℕ) (h : Queued q (record { low = ns; high = hs }))
        (a : Apart p (ns ++ hs)) (small : suc (length (ns ++ hs)) < word) where
      low-Accepts : Accepts false (record { low = ns; high = hs })
      unfolding enqueue_packet offer
      low-Accepts = elim (Bool-cases full) [
        | inl t ↦ rw t (refl, h)
        | inr t ↦ rw t (
          refl,
          record {
            items_are = laws.items-prepend p q.packets ∙ ap (λ (l : List ℕ). p ∷ l) h.items_are;
            index_is = h.index_is;
            counted = omega (arith, h.counted, small);
            distinct = (a, h.distinct);
          },
        )
      ]

      roomy-Accepts : full ≡ false → Accepts true (record { low = ns; high = hs })
      unfolding enqueue_packet offer
      roomy-Accepts t = rw t (refl, place-Queued q ns p hs h a small)

    full-Accepts :
        (ns hs : List ℕ)
        → full ≡ true
        → Queued q (record { low = ns; high = hs })
        → Apart p (ns ++ hs)
        → suc (length (ns ++ hs)) < word
        → Accepts true (record { low = ns; high = hs })
    unfolding enqueue_packet offer
    full-Accepts [] hs t h a small =
        let s : same (P.get_head q.packets) q.priority_index ≡ true =
          rw (head_lem q _ h, h.index_is) (same_self (first hs none)) in
        rw (t, s) (refl, h)
    full-Accepts (n ∷ ns) hs t h a small =
        let s : same (P.get_head q.packets) q.priority_index ≡ false =
          rw (head_lem q _ h, h.index_is) (other_head n ns hs h.distinct.0) in
        rw (t, s)
          (
            refl,
            place-Queued (bump P q pool).0 ns p hs
                (bump-Queued q n ns hs pool h (omega (arith, small))) a.1 (omega (arith, small)),
          )

    -- On a queue that holds two levels of packets, fewer than `2 ^ 32 - 1` in all,
    -- EnqueuePacket of a packet that is not in the queue does what the two levels promise: it
    -- reports whether the packet is in, keeps the order of each level, and pushes out a packet
    -- without priority only for a priority packet and only if the queue is full. The packet
    -- list keeps its laws.
    pub enqueue_packet_refines :
        (prioritize : Bool) (v : Levels)
        → Queued q v
        → Apart p (all v)
        → suc (length (all v)) < word
        → (let r = enqueue_packet P p prioritize pool q in
            let o = offer (at_limit q.queue_limit q.queue_length) p prioritize v in
            (r.0 ≡ o.0) × Queued r.1.0 o.1)
    enqueue_packet_refines false v h a small = low-Accepts v.low v.high h a small
    enqueue_packet_refines true v h a small = elim (Bool-cases full) [
      | inl t ↦ full-Accepts v.low v.high t h a small
      | inr t ↦ roomy-Accepts v.low v.high h a small t
    ]
