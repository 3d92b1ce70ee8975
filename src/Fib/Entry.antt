-- ===== src/Fib/Entry.antt =====
-- MulticastFIB::Entry of include/mcastFib.h and src/common/mcastFib.cpp: the state of one flow, with
-- a token bucket for each outbound interface and the relays that it comes from. The choice of a relay
-- and the fields of adaptive routing are left out, and so are the flags and links for the lists of
-- flows and the time to live that is kept for advertisements.
pub mod Buckets
pub mod Count
pub mod Kept
pub mod Operations
pub mod Times
pub mod Acks
use nrlsmf.Base.{
  ℕ, ◌+◌, ◌-◌, ◌%◌, Bool, true, false, not, ◌&&◌, Option, none, some, List, [], ◌∷◌, map, ◌==◌,
  if◌then◌else◌, sub32, word,
}
use nrlsmf.Fib.Ticks.{tick_age_max, is_aged}
use nrlsmf.Fib.Activity.{
  ActivityStatus, no_activity, refresh_activity, activity_age, activity_is_valid,
}
use nrlsmf.Fib.Bucket.{
  TokenBucket, ForwardingStatus, block, hybrid, limit, forward, deny, new_bucket, set_status,
  copy_bucket, reset_bucket, refresh_bucket, bucket_packet,
}
use nrlsmf.Fib.Relay.{UpstreamRelay, AckingCondition, is_due, age_relay, preset_relay}

pub record FibEntry : Type 0 where
  pub default_forwarding_status : ForwardingStatus
  pub forwarding_count : ℕ
  pub update_count : ℕ
  pub update_start : ℕ
  pub update_max : Bool
  pub activity_status : ActivityStatus
  pub bucket_list : List TokenBucket
  pub upstream_list : List UpstreamRelay
  pub acking_status : Bool
  pub acking_condition : AckingCondition

-- The constructor, with the default thresholds as `c`. It leaves the count of updates, their start
-- and `update_max` as they are in memory: `count`, `start` and `over`.
unfoldable pub new_entry : AckingCondition → ℕ → ℕ → Bool → FibEntry
new_entry c count start over = record {
  default_forwarding_status = limit;
  forwarding_count = 0;
  update_count = count;
  update_start = start;
  update_max = over;
  activity_status = no_activity;
  bucket_list = [];
  upstream_list = [];
  acking_status = false;
  acking_condition = c;
}

-- BucketList::FindBucket: the bucket of an interface.
unfoldable pub find_bucket : ℕ → List TokenBucket → Option TokenBucket
find_bucket index [] = none
find_bucket index (b ∷ bs) = if b.iface_index == index then some b else find_bucket index bs

-- A change of that bucket through the pointer to it.
unfoldable pub change_bucket : ℕ → (TokenBucket → TokenBucket) → List TokenBucket → List TokenBucket
change_bucket index f [] = []
change_bucket index f (b ∷ bs) =
    let rest = change_bucket index f bs in if b.iface_index == index then f b ∷ bs else b ∷ rest

-- GetForwardingStatus.
unfoldable pub get_forwarding_status : ℕ → FibEntry → ForwardingStatus
unfolding find_bucket
get_forwarding_status index e = elim (find_bucket index e.bucket_list) [
  | none ↦ e.default_forwarding_status
  | some b ↦ b.forwarding_status
]

abbrev pub is_forward : ForwardingStatus → Bool
is_forward forward = true
is_forward _ = false

-- The count of forwarding interfaces when the status of a bucket changes.
unfoldable pub recount : ForwardingStatus → ForwardingStatus → ℕ → ℕ
recount old new n =
    if is_forward old
    then if is_forward new then n else sub32 n 1
    else if is_forward new
    then (n + 1) % word
    else n

-- The loop of SetForwardingStatus over all the buckets.
unfoldable pub recount_all : ForwardingStatus → List TokenBucket → ℕ → ℕ
unfolding recount
recount_all new [] n = n
recount_all new (b ∷ bs) n = recount_all new bs (recount b.forwarding_status new n)

-- RefreshTokenBuckets; ResetTokenBuckets; AgeUpstreamRelays.
unfoldable pub refresh_buckets : ℕ → List TokenBucket → Option (List TokenBucket)
unfolding refresh_bucket
refresh_buckets now [] = some []
refresh_buckets now (b ∷ bs) = elim (refresh_bucket now b) [
  | none ↦ none
  | some r ↦ elim (refresh_buckets now bs) [ none ↦ none | some rs ↦ some (r ∷ rs) ]
]

unfoldable pub reset_buckets : FibEntry → FibEntry
unfolding reset_bucket
reset_buckets e = record e { bucket_list = map (reset_bucket 0) e.bucket_list }

unfoldable pub age_relays : ℕ → FibEntry → FibEntry
unfolding age_relay
age_relays now e = record e {
  upstream_list = map (λ (r : UpstreamRelay). (age_relay now r).1) e.upstream_list;
}

-- SetAckingStatus.
unfoldable pub set_acking_status : Bool → FibEntry → FibEntry
unfolding preset_relay
set_acking_status status e =
    if status
    then record e { acking_status = true }
    else if e.acking_status
    then record e {
      acking_status = false;
      upstream_list = map (preset_relay e.acking_condition.count_threshold) e.upstream_list;
    }
    else e

-- Reset.
unfoldable pub reset_entry : ℕ → FibEntry → FibEntry
reset_entry now e = record e {
  update_count = 1;
  update_start = now;
  update_max = false;
  activity_status = refresh_activity now true e.activity_status;
}

-- Refresh, up to RefreshTokenBuckets.
unfoldable pub count_update : ℕ → FibEntry → FibEntry
count_update now e =
    let s =
      if e.update_count == 0 then record e { update_start = now; update_max = false } else e in
    record s {
      update_count = (s.update_count + 1) % word;
      activity_status = refresh_activity now true s.activity_status;
    }

-- RefreshTokenBuckets and AgeUpstreamRelays, the end of Refresh and the start of Age.
unfoldable pub keep_current : ℕ → FibEntry → Option FibEntry
unfolding refresh_buckets age_relays
keep_current now e = elim (refresh_buckets now e.bucket_list) [
  | none ↦ none
  | some bs ↦ some (age_relays now (record e { bucket_list = bs }))
]

unfoldable pub refresh_entry : ℕ → FibEntry → Option FibEntry
unfolding keep_current count_update
refresh_entry now e = keep_current now (count_update now e)

-- Age, from `activity_status.Age` on.
unfoldable pub age_update : ℕ → FibEntry → ℕ × FibEntry
age_update now e =
    let a = activity_age now e.activity_status in
    let s = record e { activity_status = a.1 } in
    if a.0 == tick_age_max
    then (tick_age_max, s)
    else if not s.update_max && is_aged (sub32 now s.update_start)
    then (a.0, record s { update_max = true })
    else (a.0, s)

unfoldable pub age_entry : ℕ → FibEntry → Option (ℕ × FibEntry)
unfolding keep_current age_update
age_entry now e = elim (keep_current now e) [ none ↦ none | some s ↦ some (age_update now s) ]

-- GetUpdateInterval and UpdatePending.
unfoldable pub entry_interval : FibEntry → ℕ
entry_interval e =
    let interval = sub32 e.activity_status.age_tick e.update_start in
    if not e.update_max && activity_is_valid e.activity_status
    then if is_aged interval then tick_age_max else interval
    else tick_age_max

unfoldable pub update_pending : FibEntry → Bool
unfolding entry_interval is_due
update_pending e = is_due e.acking_condition (sub32 e.update_count 1) (entry_interval e)
