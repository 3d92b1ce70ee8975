-- ===== src/Fib/Bucket/Rate.antt =====
-- The limit of a token bucket on a stream of packets.
use native.Mathlib.Nat.{mul-add}
use nrlsmf.Base.{
  ℕ, suc, ◌+◌, ◌-◌, ◌*◌, ◌≤◌, ◌<◌, ◌≡◌, refl, Bool, true, false, some, List, [], ◌∷◌, arith,
  if◌then◌else◌, word,
}
use nrlsmf.Fib.Ticks.{tick, Ordered, latest, latest_le}
use nrlsmf.Fib.Bucket.{TokenBucket, bucket_packet, bucket_packets}
use nrlsmf.Fib.Bucket.Packets.{IsRated, Step, bucket_packet-Step}

pub packets_run :
    (b : TokenBucket) (t : ℕ) (ts : List ℕ) (x : Bool × TokenBucket) (s : ℕ × TokenBucket)
    → bucket_packet (tick t) b ≡ some x
    → bucket_packets ts x.1 ≡ some s
    → bucket_packets (t ∷ ts) b ≡ some ((if x.0 then suc s.0 else s.0), s.1)
unfolding bucket_packets
packets_run b t ts x s e f = rw (bucket_packets, e, f) refl

-- A packet that passes costs one interval.
one_more :
    (i n : ℕ) (pass : Bool) → i * (if pass then suc n else n) ≡ i * n + i * (if pass then 1 else 0)
one_more i n true = omega (arith, mul-add i n 1)
one_more i n false = omega arith

-- What one packet and those after it cost together.
together :
    (b : TokenBucket) (from u until n end : ℕ) (x : Bool × TokenBucket)
    → Step b from u x until
    → x.1.token_interval * n ≤ x.1.token_interval * x.1.bucket_count + (end + word - until)
    → u ≤ end
    → b.token_interval * (if x.0 then suc n else n)
      ≤ b.token_interval * (x.1.bucket_count + (if x.0 then 1 else 0)) + (end + word - until)
together b from u until n end x w rest late =
    let same : b.token_interval * n ≤ b.token_interval * x.1.bucket_count + (end + word - until) =
      rw⁻¹ w.same_interval rest in
    omega (
      arith,
      same,
      one_more b.token_interval n x.0,
      mul-add b.token_interval x.1.bucket_count (if x.0 then 1 else 0),
      w.until_now,
      late,
    )

packets_worth :
    (b : TokenBucket) (t from : ℕ) (ts : List ℕ)
    → IsRated b
    → from ≤ t + word
    → b.ticker_prev ≡ tick from
    → Ordered t ts
    → (s : ℕ × TokenBucket) × ((bucket_packets ts b ≡ some s)
        × (b.token_interval * s.0
            ≤ b.token_interval * b.bucket_count + (latest t ts + word - from)))
unfolding bucket_packets
packets_worth b t from [] rated before prev o = ((0, b), (refl, omega arith))
packets_worth b t from (u ∷ ts) rated before prev o =
    let step = bucket_packet-Step b u from rated (omega (arith, o.0)) prev in
    let x = step.0 in
    let w = step.1.1.1 in
    let rest = packets_worth x.1 u step.1.1.0 ts w.rated w.until_now w.prev_until o.1 in
    (
      ((if x.0 then suc rest.0.0 else rest.0.0), rest.0.1),
      (
        packets_run b u ts x rest.0 step.1.0 rest.1.0,
        omega (
          arith,
          together b from u step.1.1.0 rest.0.0 (latest u ts) x w rest.1.1 (latest_le u ts o.1),
          w.cost,
          w.until_now,
          o.0,
          latest_le u ts o.1,
        ),
      ),
    )

-- A token bucket with a rate, that holds no more than its depth, which is below `2 ^ 31`, and
-- whose status is not FORWARD: over packets at any times that do not run back, read off a
-- 32-bit counter that may wrap, ProcessPacket has a result for each, and fewer than depth + 1 +
-- elapsed / interval of them conform, written without the division; the elapsed time is that
-- from the first packet to the last.
pub bucket_packets_limited :
    (b : TokenBucket) (first : ℕ) (ts : List ℕ)
    → IsRated b
    → b.ticker_prev < word
    → Ordered first ts
    → (s : ℕ × TokenBucket) × ((bucket_packets (first ∷ ts) b ≡ some s)
        × (b.token_interval * s.0
            < b.token_interval * (b.bucket_depth + 1) + (latest first ts - first)))
bucket_packets_limited b first ts rated prev o =
    let step = bucket_packet-Step b first b.ticker_prev rated (omega arith) (omega arith) in
    let x = step.0 in
    let w = step.1.1.1 in
    let rest = packets_worth x.1 first step.1.1.0 ts w.rated w.until_now w.prev_until o in
    let last = latest_le first ts o in
    (
      ((if x.0 then suc rest.0.0 else rest.0.0), rest.0.1),
      (
        packets_run b first ts x rest.0 step.1.0 rest.1.0,
        omega (
          arith,
          together b b.ticker_prev first step.1.1.0 rest.0.0 (latest first ts) x w rest.1.1 last,
          w.cost_depth,
          w.until_now,
          last,
        ),
      ),
    )
