-- ===== src/Fib/Bucket.antt =====
-- MulticastFIB::TokenBucket of include/mcastFib.h and src/common/mcastFib.cpp: the limit on the
-- packets of a flow on one outbound interface.
pub mod Credit
pub mod Packets
pub mod Rate
pub mod Supply
use nrlsmf.Base.{
  ℕ, zero, suc, ◌+◌, ◌-◌, ◌*◌, ◌/◌, ◌%◌, ◌^◌, ◌≡◌, Bool, true, false, ◌&&◌, Option, none, some,
  Option, List, [], ◌∷◌, ltb, leb, ◌==◌, if◌then◌else◌, sub32, word,
}
use nrlsmf.Fib.Ticks.{tick_age_max, tick}

pub data ForwardingStatus : Type 0 where
  block : ForwardingStatus
  hybrid : ForwardingStatus
  limit : ForwardingStatus
  forward : ForwardingStatus
  deny : ForwardingStatus

pub record TokenBucket : Type 0 where
  pub iface_index : ℕ
  pub forwarding_status : ForwardingStatus
  pub bucket_depth : ℕ
  pub token_interval : ℕ
  pub bucket_count : ℕ
  pub ticker_prev : ℕ

-- SetRate. `interval` is `(unsigned int)((TICK_RATE / pktsPerSecond) + 0.5)`, computed on floating
-- point numbers, and `none` where the rate is not positive.
unfoldable pub set_rate : Option ℕ → TokenBucket → TokenBucket
set_rate (some interval) b = record b { token_interval = if interval == 0 then 1 else interval }
set_rate none b = record b { token_interval = 0 }

-- The constructor, with the rate of one packet in a second.
unfoldable pub new_bucket : ℕ → TokenBucket
unfolding set_rate
new_bucket index = set_rate (some 1000000) (record {
  iface_index = index;
  forwarding_status = limit;
  bucket_depth = 10;
  token_interval = 0;
  bucket_count = 10;
  ticker_prev = 0;
})

unfoldable pub set_status : ForwardingStatus → TokenBucket → TokenBucket
set_status s b = record b { forwarding_status = s }

-- CopyStatus of the bucket: all but the interface and the time.
unfoldable pub copy_bucket : TokenBucket → TokenBucket → TokenBucket
copy_bucket from b = record b {
  forwarding_status = from.forwarding_status;
  bucket_depth = from.bucket_depth;
  token_interval = from.token_interval;
  bucket_count = from.bucket_count;
}

-- Reset.
unfoldable pub reset_bucket : ℕ → TokenBucket → TokenBucket
reset_bucket now b = record b { bucket_count = b.bucket_depth; ticker_prev = now }

-- `age` in Refresh: a difference that is negative as an `int`, or too large, counts as the maximum.
unfoldable pub bucket_age : ℕ → ℕ → ℕ
bucket_age now prev =
    let age = sub32 now prev in
    if leb (2 ^ 31) age then tick_age_max else if ltb tick_age_max age then tick_age_max else age

-- The credit of Refresh to a bucket that is not full, for an age.
unfoldable pub credit : ℕ → ℕ → TokenBucket → TokenBucket
credit now age b =
    let tokens = age / b.token_interval in
    let remainder = sub32 age ((tokens * b.token_interval) % word) in
    let count = (b.bucket_count + tokens) % word in
    if ltb b.bucket_depth count
    then record b { bucket_count = b.bucket_depth; ticker_prev = now }
    else record b { bucket_count = count; ticker_prev = sub32 now remainder }

-- Refresh. It divides by the interval where the bucket is not full: with an interval of 0 that has
-- no result.
unfoldable pub refresh_bucket : ℕ → TokenBucket → Option TokenBucket
unfolding credit bucket_age
refresh_bucket now b =
    if ltb b.bucket_count b.bucket_depth
    then if b.token_interval == 0 then none else some (credit now (bucket_age now b.ticker_prev) b)
    else some (record b { ticker_prev = now })

-- The switch of ProcessPacket. The assertion on any other status is taken as switched off.
unfoldable pub conform : TokenBucket → ForwardingStatus → Bool × TokenBucket
conform b block = (false, b)
conform b forward = (true, b)
conform b limit =
    if ltb 0 b.bucket_count
    then (true, record b { bucket_count = b.bucket_count - 1 })
    else (false, b)
conform b hybrid =
    if ltb 0 b.bucket_count
    then (true, record b { bucket_count = b.bucket_count - 1 })
    else (false, record b { forwarding_status = block })
conform b deny = (false, b)

-- ProcessPacket.
unfoldable pub bucket_packet : ℕ → TokenBucket → Option (Bool × TokenBucket)
unfolding refresh_bucket conform
bucket_packet now b = elim (refresh_bucket now b) [
  | none ↦ none
  | some r ↦ some (conform r r.forwarding_status)
]

-- ProcessPacket on packets at the times of a list: how many conform, and the bucket after them.
unfoldable pub bucket_packets : List ℕ → TokenBucket → Option (ℕ × TokenBucket)
unfolding bucket_packet
bucket_packets [] b = some (0, b)
bucket_packets (t ∷ ts) b = elim (bucket_packet (tick t) b) [
  | none ↦ none
  | some r ↦ elim (bucket_packets ts r.1) [
    | none ↦ none
    | some s ↦ some ((if r.0 then suc s.0 else s.0), s.1)
  ]
]
