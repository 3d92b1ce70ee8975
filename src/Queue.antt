-- ===== src/Queue.antt =====
-- SmfQueueBase and SmfQueue of include/smfQueue.h and src/common/smfQueue.cpp: the queue of a flow's
-- packets, with two levels of priority.
pub mod Store
pub mod Key
pub mod Priority
pub mod Service
mod Tests
use nrlsmf.Base.{
  ℕ, ◌+◌, ◌%◌, Bool, true, false, Option, none, some, List, [], ◌∷◌, ltb, leb, ◌==◌, if◌then◌else◌,
  ℤ, pos, negsuc, sub32, word,
}
use nrlsmf.Queue.Store.{PacketList}

-- Whether two packet pointers are equal.
abbrev pub same : Option ℕ → Option ℕ → Bool
same none none = true
same none (some q) = false
same (some p) none = false
same (some p) (some q) = p == q

-- `limit >= 0 && length >= (unsigned int)limit`.
unfoldable pub at_limit : ℤ → ℕ → Bool
at_limit (pos limit) len = leb limit len
at_limit (negsuc limit) len = false

-- IsFull.
unfoldable pub is_full : ℤ → ℕ → Bool
is_full (pos limit) len = if ltb 0 limit then leb limit len else false
is_full (negsuc limit) len = false

module _ (P : PacketList) where
  open P use {
    Packets, empty, items, get_head, get_tail, prepend, append, insert, remove, remove_head,
    remove_tail, Pool, put,
  }

  pub record Queue : Type 0 where
    pub queue_limit : ℤ
    pub queue_length : ℕ
    pub packets : Packets
    pub priority_index : Option ℕ

  -- A queue object over the pointer that its memory held: the constructor does not set it.
  unfoldable pub new_queue : Option ℕ → Queue
  new_queue garbage = record {
    queue_limit = pos 0;
    queue_length = 0;
    packets = empty;
    priority_index = garbage;
  }

  -- SetQueueLimit.
  unfoldable pub set_queue_limit : ℤ → Queue → Queue
  set_queue_limit limit q = record q { queue_limit = limit }

  -- A packet that is dropped goes to the pool, if there is one, and is deleted else.
  unfoldable pub dispose : Option ℕ → Option Pool → Option Pool
  dispose none pool = pool
  dispose (some p) none = none
  dispose (some p) (some pool) = some (put p pool)

  -- The bump of the packet at the head.
  unfoldable pub bump : Queue → Option Pool → Queue × Option Pool
  bump q pool =
      let r = remove_head q.packets in
      (record q { packets = r.1; queue_length = sub32 q.queue_length 1 }, dispose r.0 pool)

  -- A priority packet, behind the last one.
  unfoldable pub place : ℕ → Queue → Queue
  place p q = elim q.priority_index [
    | some last ↦ record q {
      packets = insert p last q.packets;
      priority_index = some p;
      queue_length = (q.queue_length + 1) % word;
    }
    | none ↦ record q {
      packets = append p q.packets;
      priority_index = some p;
      queue_length = (q.queue_length + 1) % word;
    }
  ]

  -- EnqueuePacket: whether the packet is in, the queue, and the pool.
  unfoldable pub enqueue_packet : ℕ → Bool → Option Pool → Queue → Bool × (Queue × Option Pool)
  enqueue_packet p prioritize pool q =
      if prioritize
      then (if at_limit q.queue_limit q.queue_length
          then (if same (get_head q.packets) q.priority_index
              then (false, (q, pool))
              else (let r = bump q pool in (true, (place p r.0, r.1))))
          else (true, (place p q, pool)))
      else if at_limit q.queue_limit q.queue_length
      then (false, (q, pool))
      else (
        true,
        (
          record q { packets = prepend p q.packets; queue_length = (q.queue_length + 1) % word },
          pool,
        ),
      )

  -- PreviewPacket.
  unfoldable pub preview_packet : Queue → Option ℕ
  preview_packet q = get_tail q.packets

  -- DequeuePacket.
  unfoldable pub dequeue_packet : Queue → Option ℕ × Queue
  dequeue_packet q =
      let r = remove_tail q.packets in
      elim r.0 [
        | none ↦ (none, record q { packets = r.1 })
        | some p ↦ (
          some p,
          record q {
            packets = r.1;
            priority_index = if same q.priority_index (some p) then none else q.priority_index;
            queue_length = sub32 q.queue_length 1;
          },
        )
      ]

  -- EmptyToPool: each packet that the iterator gives.
  unfoldable pub empty_from : List ℕ → Packets → Pool → Packets × Pool
  empty_from [] l pool = (l, pool)
  empty_from (p ∷ ps) l pool = empty_from ps (remove p l) (put p pool)

  unfoldable pub empty_to_pool : Pool → Queue → Queue × Pool
  empty_to_pool pool q =
      let r = empty_from (items q.packets) q.packets pool in
      (record q { packets = r.0; queue_length = 0 }, r.1)
