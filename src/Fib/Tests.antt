-- ===== src/Fib/Tests.antt =====
-- The flow entries, buckets and relays on concrete inputs.
use nrlsmf.Base.{
  ℕ, ◌+◌, ◌-◌, ◌*◌, ◌<◌, ◌≡◌, refl, true, false, none, some, List, [], ◌∷◌, map, arith, All, min,
  ◌==◌,
}
use nrlsmf.Fib.Ticks.{tick, tick_age_max, latest}
use nrlsmf.Fib.Activity.{ages, no_activity, refresh_activity, ages_exact}
use nrlsmf.Fib.Bucket.{
  TokenBucket, limit, forward, block, new_bucket, set_status, bucket_packet, bucket_packets,
  refresh_bucket, conform, credit, bucket_age, copy_bucket,
}
use nrlsmf.Fib.Bucket.Packets.{IsRated}
use nrlsmf.Fib.Bucket.Rate.{bucket_packets_limited}
use nrlsmf.Fib.Bucket.Supply.{bucket_packets_conforming}
use nrlsmf.Fib.Relay.{
  UpstreamRelay, AckingCondition, new_relay, reset_relay, refresh_at, ack_pending, is_due,
}
use nrlsmf.Fib.Relay.Due.{ack_pending-is_due}
use nrlsmf.Fib.Entry.{FibEntry, new_entry, find_bucket, set_acking_status}
use nrlsmf.Fib.Entry.Buckets.{BucketTree, Inserts, copy_status, copy_buckets}
use nrlsmf.Fib.Entry.Count.{IsCounted}
use nrlsmf.Fib.Entry.Operations.{
  EntryOp, default_to, status_on, packet_on, refresh_op, age_op, apply_ops, apply_ops-IsCounted,
}
use nrlsmf.Fib.Entry.Acks.{IsDueNext, set_acking_status_due}

-- Ages at 5 ticks, at 900 seconds, and twice beyond the maximum, the last time after the counter
-- has come round to where the age would be low again.
abbrev late_times : List ℕ
late_times = 105 ∷ (900000100 ∷ (1200000100 ∷ (4294967300 ∷ [])))

ages_exact_example :
    ages late_times (refresh_activity (tick 100) true no_activity)
    ≡ map (λ (u : ℕ). min (u - 100) tick_age_max) late_times
ages_exact_example = ages_exact 100 late_times true no_activity (
  omega arith,
  (
    omega arith,
    (omega arith, (omega arith, (omega arith, (omega arith, (omega arith, (omega arith, tt)))))),
  ),
)

-- A bucket of two tokens that gets one every 1000 ticks.
abbrev small_bucket : TokenBucket
small_bucket = record {
  iface_index = 1;
  forwarding_status = limit;
  bucket_depth = 2;
  token_interval = 1000;
  bucket_count = 2;
  ticker_prev = 0;
}

small_bucket-IsRated : IsRated small_bucket
small_bucket-IsRated = record {
  has_rate = omega arith;
  in_depth = omega arith;
  small_depth = omega arith;
  not_free = λ e. cc e;
}

abbrev burst : List ℕ
burst = 501 ∷ (502 ∷ (503 ∷ (1600 ∷ (1601 ∷ []))))

bucket_packets_limited_example :
    (s : ℕ × TokenBucket) × ((bucket_packets (500 ∷ burst) small_bucket ≡ some s)
      × (1000 * s.0 < 1000 * (2 + 1) + (latest 500 burst - 500)))
bucket_packets_limited_example =
    bucket_packets_limited small_bucket 500 burst small_bucket-IsRated (omega arith)
      (omega arith, (omega arith, (omega arith, (omega arith, (omega arith, tt)))))

-- Three of the six packets pass.
burst_passes :
    bucket_packets (500 ∷ burst) small_bucket
    ≡ some (3, record small_bucket { bucket_count = 0; ticker_prev = 1500 })
unfolding bucket_packets bucket_packet refresh_bucket conform credit bucket_age
burst_passes = refl

abbrev steady : List ℕ
steady = 1500 ∷ (2500 ∷ (4000 ∷ (5000 ∷ [])))

bucket_packets_conforming_example :
    (r : TokenBucket) × (bucket_packets (500 ∷ steady) small_bucket ≡ some (5, r))
bucket_packets_conforming_example =
    bucket_packets_conforming small_bucket 500 steady small_bucket-IsRated refl (omega arith)
      (omega arith) (omega arith)
      (
        omega arith,
        (
          omega arith,
          (
            omega arith,
            (omega arith, (omega arith, (omega arith, (omega arith, (omega arith, tt))))),
          ),
        ),
      )

-- Without a rate a bucket that is not full has no result.
no_rate_traps :
    bucket_packet 7 (record small_bucket { token_interval = 0; bucket_count = 1 }) ≡ none
unfolding bucket_packet refresh_bucket
no_rate_traps = refl

abbrev ten_packets : AckingCondition
ten_packets = record { count_threshold = 2; interval_max = 30000000; interval_min = 100000 }

abbrev a_relay : UpstreamRelay
a_relay = new_relay (1 ∷ (2 ∷ (3 ∷ (4 ∷ (5 ∷ (6 ∷ [])))))) 3

ack_pending-is_due_example :
    ack_pending ten_packets (refresh_at (50000 ∷ (120000 ∷ [])) (reset_relay (tick 100) a_relay))
    ≡ is_due ten_packets 2 (min (120000 - 100) tick_age_max)
ack_pending-is_due_example =
    ack_pending-is_due ten_packets a_relay 100 (50000 ∷ (120000 ∷ []))
      (omega arith, (omega arith, tt)) (omega arith) (omega arith)

abbrev acking_entry : FibEntry
acking_entry = record (new_entry ten_packets 0 0 true) {
  acking_status = true;
  upstream_list = a_relay ∷ (new_relay (9 ∷ []) 4 ∷ []);
}

set_acking_status_due_example :
    All
      (IsDueNext ten_packets 77)
      (set_acking_status true (set_acking_status false acking_entry)).upstream_list
unfolding new_entry
set_acking_status_due_example =
    set_acking_status_due acking_entry 77 refl (omega arith) (omega arith) (omega arith)

-- A tree whose iterator shows the newest bucket first.
abbrev newest_first : BucketTree
newest_first = record { insert = λ b bs. b ∷ bs }

found_first :
    (b : TokenBucket) (bs : List TokenBucket) → find_bucket b.iface_index (b ∷ bs) ≡ some b
unfolding find_bucket
found_first b bs = let h : (b.iface_index == b.iface_index) ≡ true = ground arith in rw h refl

newest_first-Inserts : Inserts newest_first
newest_first-Inserts = record {
  insert_count = λ test b bs missing. refl;
  insert_found = λ b bs missing. found_first b bs;
}

abbrev a_life : List EntryOp
a_life =
    refresh_op 5
    ∷ (packet_on true 1 5
        ∷ (default_to forward
            ∷ (packet_on true 2 9
                ∷ (status_on true 3 forward true
                    ∷ (status_on true 2 block false
                        ∷ (status_on false 4 forward true
                            ∷ (age_op 4000000 ∷ (status_on true 0 forward true ∷ []))))))))

apply_ops-IsCounted_example :
    (f : FibEntry) × ((apply_ops newest_first a_life (new_entry ten_packets 0 0 true) ≡ some f)
      × IsCounted f)
apply_ops-IsCounted_example =
    apply_ops-IsCounted newest_first newest_first-Inserts a_life ten_packets 0 0 true

-- CopyStatus brings in a bucket that forwards and leaves the count at 0.
abbrev copied : FibEntry
copied = record (new_entry ten_packets 0 0 true) {
  bucket_list = set_status forward (new_bucket 1) ∷ [];
  forwarding_count = 1;
}

copy_uncounted :
    (copy_status newest_first true copied (new_entry ten_packets 0 0 true)).1.forwarding_count ≡ 0
unfolding copy_status new_entry
copy_uncounted = refl

copy_forwards :
    (copy_status newest_first true copied (new_entry ten_packets 0 0 true)).1.bucket_list
    ≡ set_status forward (new_bucket 1) ∷ []
unfolding copy_status copy_buckets new_entry new_bucket copy_bucket find_bucket set_status
copy_forwards = refl
