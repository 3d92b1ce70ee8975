-- ===== src/Fib/Bucket/Supply.antt =====
-- A token bucket lets through a flow that keeps to its rate.
use nrlsmf.Base.{
  ℕ, suc, ◌+◌, ◌≤◌, ◌<◌, ◌≡◌, refl, ap, ◌∙◌, Bool, true, some, List, [], ◌∷◌, arith, if◌then◌else◌,
  word, inl, inr, length,
}
use nrlsmf.Fib.Ticks.{tick, Spaced, tick_age_max, age_gap, tick_turn}
use nrlsmf.Fib.Bucket.{TokenBucket, limit, bucket_age, bucket_packet, bucket_packets}
use nrlsmf.Fib.Bucket.Credit.{bucket_age_ge}
use nrlsmf.Fib.Bucket.Packets.{IsRated, bucket_packet-Step}
use nrlsmf.Fib.Bucket.Rate.{packets_run}

-- After the interval has gone by, the age that Refresh works with is no less.
waited :
    (b : TokenBucket) (t u until : ℕ)
    → b.ticker_prev ≡ tick until
    → until ≤ t + word
    → t + word ≤ until + tick_age_max
    → t + b.token_interval ≤ u
    → u ≤ t + age_gap
    → b.token_interval ≤ tick_age_max
    → b.token_interval ≤ bucket_age (tick u) b.ticker_prev
waited b t u until prev now recent low high small = rw (prev) (
    rw⁻¹ (tick_turn u)
      (bucket_age_ge (u + word) until b.token_interval (omega arith) (omega arith) small))

passed_run :
    (b : TokenBucket) (t : ℕ) (ts : List ℕ) (x : Bool × TokenBucket) (r : TokenBucket)
    → x.0 ≡ true
    → bucket_packet (tick t) b ≡ some x
    → bucket_packets ts x.1 ≡ some (length ts, r)
    → bucket_packets (t ∷ ts) b ≡ some (suc (length ts), r)
passed_run b t ts x r p e f =
    packets_run b t ts x (length ts, r) e f
    ∙ ap (λ (v : Bool). some ((if v then suc (length ts) else length ts), r)) p

all_pass :
    (b : TokenBucket) (t until : ℕ) (ts : List ℕ)
    → IsRated b
    → b.forwarding_status ≡ limit
    → 0 < b.bucket_depth
    → b.token_interval ≤ tick_age_max
    → b.ticker_prev ≡ tick until
    → until ≤ t + word
    → t + word ≤ until + tick_age_max
    → Spaced b.token_interval age_gap t ts
    → (r : TokenBucket) × (bucket_packets ts b ≡ some (length ts, r))
unfolding bucket_packets
all_pass b t until [] rated l d small prev now recent h = (b, refl)
all_pass b t until (u ∷ ts) rated l d small prev now recent h =
    let step = bucket_packet-Step b u until rated (omega (arith, h.0)) prev in
    let w = step.1.1.1 in
    let passed = w.passes l d (inr (waited b t u until prev now recent h.0 h.1.0 small)) in
    let rest =
      all_pass step.0.1 u step.1.1.0 ts w.rated passed.1 (rw w.same_depth d)
        (rw w.same_interval small) w.prev_until w.until_now w.until_recent
        (rw w.same_interval h.1.1) in
    (rest.0, passed_run b u ts step.0 rest.0 passed.0 step.1.0 rest.1)

-- A token bucket with a rate, the status LIMIT and a token, that holds no more than its depth,
-- which is below `2 ^ 31`, and with an interval of at most TICK_AGE_MAX: if each packet comes
-- an interval or more after the one before, and `2 ^ 32 - 2 ^ 30 - 1` ticks after it at most,
-- then ProcessPacket lets all of them through.
pub bucket_packets_conforming :
    (b : TokenBucket) (first : ℕ) (ts : List ℕ)
    → IsRated b
    → b.forwarding_status ≡ limit
    → 0 < b.bucket_count
    → b.token_interval ≤ tick_age_max
    → b.ticker_prev < word
    → Spaced b.token_interval age_gap first ts
    → (r : TokenBucket) × (bucket_packets (first ∷ ts) b ≡ some (suc (length ts), r))
bucket_packets_conforming b first ts rated l full small prev h =
    let step = bucket_packet-Step b first b.ticker_prev rated (omega arith) (omega arith) in
    let w = step.1.1.1 in
    let d : 0 < b.bucket_depth = omega (arith, rated.in_depth) in
    let passed = w.passes l d (inl full) in
    let rest =
      all_pass step.0.1 first step.1.1.0 ts w.rated passed.1 (rw w.same_depth d)
        (rw w.same_interval small) w.prev_until w.until_now w.until_recent (rw w.same_interval h) in
    (rest.0, passed_run b first ts step.0 rest.0 passed.0 step.1.0 rest.1)
