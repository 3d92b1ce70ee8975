-- ===== src/Fib/Entry/Buckets.antt =====
-- The operations of MulticastFIB::Entry that add buckets, over the tree of Protolib that holds them.
use nrlsmf.Base.{
  ℕ, ◌+◌, ◌%◌, ◌≡◌, Bool, true, false, Option, none, some, List, [], ◌∷◌, map, ◌==◌, if◌then◌else◌,
  word,
}
use nrlsmf.Fib.Bucket.{
  TokenBucket, ForwardingStatus, new_bucket, set_status, copy_bucket, bucket_packet,
}
use nrlsmf.Fib.Entry.{
  FibEntry, find_bucket, change_bucket, is_forward, recount, recount_all, set_acking_status,
}

-- ProtoTree::Insert, as the iterator over the tree shows it: the buckets in the order of the tree.
pub record BucketTree : Type 0 where
  pub insert : TokenBucket → List TokenBucket → List TokenBucket

-- How many buckets pass a test.
abbrev pub count_if : (TokenBucket → Bool) → List TokenBucket → ℕ
count_if test [] = 0
count_if test (b ∷ bs) = (if test b then 1 else 0) + count_if test bs

-- A bucket for an interface that the tree has none for is in the tree then, and is all that is new.
pub record Inserts (T : BucketTree) : Type 0 where
  pub insert_count :
      (test : TokenBucket → Bool) (b : TokenBucket) (bs : List TokenBucket)
      → find_bucket b.iface_index bs ≡ none
      → count_if test (T.insert b bs) ≡ count_if test (b ∷ bs)
  pub insert_found :
      (b : TokenBucket) (bs : List TokenBucket)
      → find_bucket b.iface_index bs ≡ none
      → find_bucket b.iface_index (T.insert b bs) ≡ some b

-- The change of one bucket's status, with the count.
unfoldable pub put_status : ℕ → ForwardingStatus → TokenBucket → FibEntry → FibEntry
unfolding change_bucket recount set_status
put_status index status b e = record e {
  forwarding_count = recount b.forwarding_status status e.forwarding_count;
  bucket_list = change_bucket index (set_status status) e.bucket_list;
}

-- The change of all of them, and of the default.
unfoldable pub put_all_statuses : ForwardingStatus → FibEntry → FibEntry
unfolding recount_all set_status
put_all_statuses status e = record e {
  default_forwarding_status = status;
  forwarding_count = recount_all status e.bucket_list e.forwarding_count;
  bucket_list = map (set_status status) e.bucket_list;
}

module _ (T : BucketTree) where
  -- The new bucket of GetBucket, put into the list.
  unfoldable pub add_bucket : ℕ → FibEntry → TokenBucket × FibEntry
  unfolding new_bucket set_status
  add_bucket index e =
      let b = set_status e.default_forwarding_status (new_bucket index) in
      (
        b,
        record e {
          forwarding_count =
              if is_forward e.default_forwarding_status
              then (e.forwarding_count + 1) % word
              else e.forwarding_count;
          bucket_list = T.insert b e.bucket_list;
        },
      )

  -- GetBucket; `room` is whether `new` has memory for a bucket.
  unfoldable pub get_bucket : Bool → ℕ → FibEntry → Option (TokenBucket × FibEntry)
  unfolding add_bucket find_bucket
  get_bucket room index e = elim (find_bucket index e.bucket_list) [
    | some b ↦ some (b, e)
    | none ↦ if room then some (add_bucket index e) else none
  ]

  -- SetForwardingStatus. The index 0 stands for all interfaces.
  unfoldable pub set_forwarding_status :
      Bool → ℕ → ForwardingStatus → Bool → FibEntry → Bool × FibEntry
  unfolding get_bucket put_status put_all_statuses set_acking_status
  set_forwarding_status room index status acking e =
      if index == 0
      then (true, set_acking_status acking (put_all_statuses status e))
      else elim (get_bucket room index e) [
        | none ↦ (false, e)
        | some g ↦ (true, set_acking_status acking (put_status index status g.0 g.1))
      ]

  -- The check of Smf::ProcessPacket on an outbound interface that it may forward on; there is no
  -- result where the bucket's Refresh has none.
  unfoldable pub check_bucket : Bool → ℕ → ℕ → FibEntry → Option (Bool × FibEntry)
  unfolding get_bucket bucket_packet change_bucket
  check_bucket room index now e = elim (get_bucket room index e) [
    | none ↦ some (false, e)
    | some g ↦ elim (bucket_packet now g.0) [
      | none ↦ none
      | some x ↦ some (
        x.0,
        record g.1 { bucket_list = change_bucket index (λ (b : TokenBucket). x.1) g.1.bucket_list },
      )
    ]
  ]

  -- The loop of CopyStatus over the buckets of the other entry; `rooms` is whether `new` has memory.
  unfoldable pub copy_buckets : Bool → List TokenBucket → List TokenBucket → Bool × List TokenBucket
  unfolding find_bucket change_bucket copy_bucket new_bucket
  copy_buckets room [] bs = (true, bs)
  copy_buckets room (from ∷ froms) bs = elim (find_bucket from.iface_index bs) [
    | some b ↦
        copy_buckets room froms
          (T.insert (copy_bucket from b) (change_bucket from.iface_index (copy_bucket from) bs))
    | none ↦
        let rest =
          copy_buckets room froms (T.insert (copy_bucket from (new_bucket from.iface_index)) bs) in
        if room then rest else (false, bs)
  ]

  -- CopyStatus, without the fields of adaptive routing.
  unfoldable pub copy_status : Bool → FibEntry → FibEntry → Bool × FibEntry
  unfolding copy_buckets
  copy_status room from e =
      let r = copy_buckets room from.bucket_list e.bucket_list in
      (
        r.0,
        record e {
          default_forwarding_status = from.default_forwarding_status;
          acking_status = from.acking_status;
          acking_condition = from.acking_condition;
          bucket_list = r.1;
        },
      )
