-- ===== src/Queue/Service.antt =====
-- DequeuePacket and PreviewPacket against the two levels, and EmptyToPool.
use mathlib.Core.List.{append-nil, append_assoc}
use nrlsmf.Base.{
  ℕ, ◌<◌, ◌≡◌, refl, sym, ap, subst, ◌∙◌, inl, inr, Option, none, some, List, [], ◌∷◌, ◌++◌, arith,
  length, length-append, sub32, word, if◌then◌else◌,
}
use nrlsmf.Dpd.Links.Seg.{
  first, final, Apart, Distinct, Apart-split, Distinct-middle, snoc_cases, final-append,
}
use nrlsmf.Queue.Store.{PacketList, Laws}
use nrlsmf.Queue.{Queue, same, preview_packet, dequeue_packet, empty_from, empty_to_pool}
use nrlsmf.Queue.Priority.{Levels, all, Queued, serve, split_last-snoc}

Distinct-front : (x : ℕ) (xs : List ℕ) → Distinct (xs ++ (x ∷ [])) → Distinct xs
Distinct-front x xs d = subst Distinct (append-nil xs) (Distinct-middle x xs [] d).2

abbrev pub put_all : (P : PacketList) → List ℕ → P.Pool → P.Pool
put_all P [] pool = pool
put_all P (p ∷ ps) pool = put_all P ps (P.put p pool)

module _ (P : PacketList) (laws : Laws P) (q : Queue P) where
  abbrev Serves : Levels → Type 0
  Serves v =
      ((dequeue_packet P q).0 ≡ (serve v).0)
      × Queued P laws (dequeue_packet P q).1 (serve v).1
      × (preview_packet P q ≡ (serve v).0)

  last_lem :
      (x : ℕ) (xs : List ℕ) → P.items q.packets ≡ xs ++ (x ∷ []) → preview_packet P q ≡ some x
  unfolding preview_packet
  last_lem x xs e = laws.tail_is q.packets ∙ ap (final none) e ∙ final-append none xs (x ∷ [])

  shorter :
      (x : ℕ) (xs : List ℕ)
      → length (xs ++ (x ∷ [])) < word
      → sub32 (length (xs ++ (x ∷ []))) 1 ≡ length xs
  shorter x xs small = omega (arith, length-append xs (x ∷ []), small)

  dequeued_none :
      P.items q.packets ≡ [] → dequeue_packet P q ≡ (none, record q { packets = q.packets })
  unfolding dequeue_packet
  dequeued_none e =
      let t = laws.remove_tail-none q.packets e in
      let t0 : (P.remove_tail q.packets).0 ≡ none = ap (λ r. r.0) t in
      let t1 : (P.remove_tail q.packets).1 ≡ q.packets = ap (λ r. r.1) t in
      rw (t0, t1, dequeue_packet) refl

  dequeued_some :
      (x : ℕ)
      → (P.remove_tail q.packets).0 ≡ some x
      → dequeue_packet P q ≡ (
        some x,
        record q {
          packets = (P.remove_tail q.packets).1;
          priority_index = if same q.priority_index (some x) then none else q.priority_index;
          queue_length = sub32 q.queue_length 1;
        },
      )
  unfolding dequeue_packet
  dequeued_some x e = rw (e, dequeue_packet) refl

  served :
      (x : ℕ) (l : List ℕ) (v w : Levels)
      → Queued P laws q v
      → all v ≡ l ++ (x ∷ [])
      → serve v ≡ (some x, w)
      → all w ≡ l
      → (if same (first v.high none) (some x) then none else first v.high none) ≡ first w.high none
      → length (l ++ (x ∷ [])) < word
      → Serves v
  served x l v w h e s f i small =
      let k : P.items q.packets ≡ l ++ (x ∷ []) = h.items_are ∙ e in
      let r = laws.remove_tail-some x l q.packets k in
      let n : sub32 q.queue_length 1 ≡ length (all w) =
        ap (λ (t : ℕ). sub32 t 1) (h.counted ∙ ap length e)
        ∙ shorter x l small
        ∙ sym (ap length f) in
      let j : (if same q.priority_index (some x) then none else q.priority_index)
          ≡ first w.high none =
        ap (λ (o : Option ℕ). if same o (some x) then none else o) h.index_is ∙ i in
      let d : Distinct (all w) =
        subst Distinct (sym f) (Distinct-front x l (subst Distinct e h.distinct)) in
      simp (dequeued_some x r.0, s)
        (
          refl,
          record { items_are = r.1 ∙ sym f; index_is = j; counted = n; distinct = d },
          last_lem x l k,
        )

  none-Serves :
      Queued P laws q (record { low = []; high = [] }) → Serves (record { low = []; high = [] })
  unfolding serve
  none-Serves h = simp (dequeued_none h.items_are) (
    refl,
    record {
      items_are = h.items_are;
      index_is = h.index_is;
      counted = h.counted;
      distinct = h.distinct;
    },
    unfold preview_packet in laws.tail_is q.packets ∙ ap (final none) h.items_are,
  )

  index_left :
      (x : ℕ) (hs : List ℕ)
      → Apart x hs
      → (if same (first (hs ++ (x ∷ [])) none) (some x) then none else first (hs ++ (x ∷ [])) none)
        ≡ first hs none
  index_left x [] a = ground arith
  index_left x (y ∷ hs) a = ground (arith, a.0)

  high-Serves :
      (t : ℕ) (ns ys : List ℕ)
      → Queued P laws q (record { low = ns; high = ys ++ (t ∷ []) })
      → length (ns ++ (ys ++ (t ∷ []))) < word
      → Serves (record { low = ns; high = ys ++ (t ∷ []) })
  unfolding serve
  high-Serves t ns ys h small =
      let a : ns ++ (ys ++ (t ∷ [])) ≡ (ns ++ ys) ++ (t ∷ []) = sym (append_assoc ns ys (t ∷ [])) in
      let d = (Distinct-middle t (ns ++ ys) [] (subst Distinct a h.distinct)).0 in
      served t (ns ++ ys) _ (record { low = ns; high = ys }) h a
        (rw (split_last-snoc ys t, serve) refl) refl (index_left t ys (Apart-split t ns ys d).1)
        (subst (λ (l : List ℕ). length l < word) a small)

  low-Serves :
      (t : ℕ) (ys : List ℕ)
      → Queued P laws q (record { low = ys ++ (t ∷ []); high = [] })
      → length ((ys ++ (t ∷ [])) ++ []) < word
      → Serves (record { low = ys ++ (t ∷ []); high = [] })
  unfolding serve
  low-Serves t ys h small =
      let a : (ys ++ (t ∷ [])) ++ [] ≡ ys ++ (t ∷ []) = append-nil (ys ++ (t ∷ [])) in
      served t ys _ (record { low = ys; high = [] }) h a (rw (split_last-snoc ys t, serve) refl)
        (append-nil ys) refl (subst (λ (l : List ℕ). length l < word) a small)

  abbrev Goes : List ℕ → List ℕ → Type 0
  Goes ns hs =
      let v : Levels = record { low = ns; high = hs } in
      Queued P laws q v → length (ns ++ hs) < word → Serves v

  low-Goes : (ns : List ℕ) → Goes ns []
  low-Goes ns = elim (snoc_cases ns) [
    | inl e ↦ subst (λ (l : List ℕ). Goes l []) (sym e) (λ h s. none-Serves h)
    | inr (ys, t, e) ↦ subst (λ (l : List ℕ). Goes l []) (sym e) (low-Serves t ys)
  ]

  goes : (ns hs : List ℕ) → Goes ns hs
  goes ns hs = elim (snoc_cases hs) [
    | inl e ↦ subst (Goes ns) (sym e) (low-Goes ns)
    | inr (ys, t, e) ↦ subst (Goes ns) (sym e) (high-Serves t ns ys)
  ]

  -- On a queue that holds two levels of packets, fewer than `2 ^ 32` in all, DequeuePacket
  -- returns the oldest priority packet, or the oldest packet if there is none of priority, or
  -- none if the queue is empty, and takes it out; PreviewPacket tells which one it will be. The
  -- packet list keeps its laws.
  pub dequeue_packet_refines :
      (v : Levels)
      → Queued P laws q v
      → length (all v) < word
      → ((dequeue_packet P q).0 ≡ (serve v).0)
        × Queued P laws (dequeue_packet P q).1 (serve v).1
        × (preview_packet P q ≡ (serve v).0)
  dequeue_packet_refines v h small = goes v.low v.high h small

  empty_from-items :
      (ps : List ℕ) (l : P.Packets) (pool : P.Pool)
      → P.items l ≡ ps
      → P.items (empty_from P ps l pool).0 ≡ []
  unfolding empty_from
  empty_from-items [] l pool e = e
  empty_from-items (p ∷ ps) l pool e =
      empty_from-items ps (P.remove p l) (P.put p pool) (laws.items-remove p [] ps l tt e)

  empty_from-pool :
      (ps : List ℕ) (l : P.Packets) (pool : P.Pool) → (empty_from P ps l pool).1 ≡ put_all P ps pool
  unfolding empty_from
  empty_from-pool [] l pool = refl
  empty_from-pool (p ∷ ps) l pool = empty_from-pool ps (P.remove p l) (P.put p pool)

  -- EmptyToPool leaves no packet and the length 0, and hands every packet to the pool, from the
  -- head on, if the packet list keeps its laws.
  pub empty_to_pool-empty :
      (pool : P.Pool)
      → let r = empty_to_pool P pool q in
        (P.items r.0.packets ≡ [])
        × (r.0.queue_length ≡ 0)
        × (r.1 ≡ put_all P (P.items q.packets) pool)
  unfolding empty_to_pool
  empty_to_pool-empty pool = (
    empty_from-items (P.items q.packets) q.packets pool refl,
    refl,
    empty_from-pool (P.items q.packets) q.packets pool,
  )
