-- ===== src/Fib/Bucket/Packets.antt =====
-- One packet through a token bucket that does not forward without limit.
use native.Mathlib.Nat.{mul-add, mul-le-mul_left}
use nrlsmf.Base.{
  ℕ, ◌+◌, ◌-◌, ◌*◌, ◌^◌, ◌≤◌, ◌<◌, ◌≡◌, ◌≢◌, refl, sym, ◌∙◌, subst, inl, inr, ◌⊎◌, Bool, true,
  false, some, arith, Bool-cases, ltb, if◌then◌else◌, word,
}
use nrlsmf.Fib.Ticks.{tick_age_max, tick, tick_turn}
use nrlsmf.Fib.Bucket.{
  TokenBucket, ForwardingStatus, block, hybrid, limit, forward, deny, bucket_age, conform,
  refresh_bucket, bucket_packet,
}
use nrlsmf.Fib.Bucket.Credit.{Credited, refresh_bucket-Credited}

-- A bucket with a rate, not filled beyond its depth, on a flow that is not forwarded without limit.
pub record IsRated (b : TokenBucket) : Type 0 where
  pub has_rate : 0 < b.token_interval
  pub in_depth : b.bucket_count ≤ b.bucket_depth
  pub small_depth : b.bucket_depth < 2 ^ 31
  pub not_free : b.forwarding_status ≢ forward

-- A packet that conforms takes one token; no other takes any.
pub record Paid (b : TokenBucket) (x : Bool × TokenBucket) : Type 0 where
  pub same_interval : x.1.token_interval ≡ b.token_interval
  pub same_depth : x.1.bucket_depth ≡ b.bucket_depth
  pub same_prev : x.1.ticker_prev ≡ b.ticker_prev
  pub price : x.1.bucket_count + (if x.0 then 1 else 0) ≤ b.bucket_count
  pub still_not_free : x.1.forwarding_status ≢ forward

no_token : (b : TokenBucket) → b.forwarding_status ≢ forward → Paid b (false, b)
no_token b h = record {
  same_interval = refl;
  same_depth = refl;
  same_prev = refl;
  price = omega arith;
  still_not_free = h;
}

one_token :
    (b : TokenBucket)
    → 0 < b.bucket_count
    → b.forwarding_status ≢ forward
    → Paid b (true, record b { bucket_count = b.bucket_count - 1 })
one_token b g h = record {
  same_interval = refl;
  same_depth = refl;
  same_prev = refl;
  price = omega arith;
  still_not_free = h;
}

conform-Paid :
    (b : TokenBucket) (s : ForwardingStatus)
    → b.forwarding_status ≡ s
    → s ≢ forward
    → Paid b (conform b s)
unfolding conform
conform-Paid b block e h = no_token b (rw e h)
conform-Paid b forward e h = absurd (h refl)
conform-Paid b deny e h = no_token b (rw e h)
conform-Paid b limit e h = elim (Bool-cases (ltb 0 b.bucket_count)) [
  | inl g ↦ simp g (one_token b (ground arith) (rw e h))
  | inr g ↦ simp g (no_token b (rw e h))
]
conform-Paid b hybrid e h = elim (Bool-cases (ltb 0 b.bucket_count)) [
  | inl g ↦ simp g (one_token b (ground arith) (rw e h))
  | inr g ↦ simp g (record {
    same_interval = refl;
    same_depth = refl;
    same_prev = refl;
    price = omega arith;
    still_not_free = λ p. cc p;
  })
]

-- What ProcessPacket makes of a rated bucket, at the true time `t` in ticks: credited up to the time
-- `until` of the counter that runs one turn ahead, then charged.
pub record Step (b : TokenBucket) (from t : ℕ) (x : Bool × TokenBucket) (until : ℕ) : Type 0 where
  pub rated : IsRated x.1
  pub same_interval : x.1.token_interval ≡ b.token_interval
  pub same_depth : x.1.bucket_depth ≡ b.bucket_depth
  pub prev_until : x.1.ticker_prev ≡ tick until
  pub until_now : until ≤ t + word
  pub until_recent : t + word ≤ until + tick_age_max
  pub cost :
      b.token_interval * (x.1.bucket_count + (if x.0 then 1 else 0)) + (t + word - until)
      ≤ b.token_interval * b.bucket_count + (t + word - from)
  pub cost_depth :
      b.token_interval * (x.1.bucket_count + (if x.0 then 1 else 0)) + (t + word - until)
      < b.token_interval * (b.bucket_depth + 1)
  pub passes :
      b.forwarding_status ≡ limit
      → 0 < b.bucket_depth
      → (0 < b.bucket_count) ⊎ (b.token_interval ≤ bucket_age (tick t) b.ticker_prev)
      → (x.0 ≡ true) × (x.1.forwarding_status ≡ limit)

limit_passes :
    (r : TokenBucket)
    → 0 < r.bucket_count
    → ((conform r limit).0 ≡ true) × ((conform r limit).1.forwarding_status ≡ r.forwarding_status)
unfolding conform
limit_passes r h = let g : ltb 0 r.bucket_count ≡ true = ground arith in simp g (refl, refl)

module _ (b r : TokenBucket) (from t until : ℕ) (c : Credited b r from (t + word) until)
    (rated : IsRated b) (x : Bool × TokenBucket) (paid : Paid r x) where
  charge_le :
      b.token_interval * (x.1.bucket_count + (if x.0 then 1 else 0))
      ≤ b.token_interval * r.bucket_count
  charge_le = mul-le-mul_left b.token_interval paid.price

  charge_depth : b.token_interval * r.bucket_count ≤ b.token_interval * b.bucket_depth
  charge_depth = mul-le-mul_left b.token_interval (rw⁻¹ c.same_depth c.in_depth)

  charged-IsRated : IsRated x.1
  charged-IsRated = record {
    has_rate = rw (paid.same_interval, c.same_interval) rated.has_rate;
    in_depth = rw paid.same_depth (omega (arith, paid.price, c.in_depth));
    small_depth = rw (paid.same_depth, c.same_depth) rated.small_depth;
    not_free = paid.still_not_free;
  }

  charged :
      (b.forwarding_status ≡ limit
        → 0 < b.bucket_depth
        → (0 < b.bucket_count) ⊎ (b.token_interval ≤ bucket_age (tick t) b.ticker_prev)
        → (x.0 ≡ true) × (x.1.forwarding_status ≡ limit))
      → Step b from t x until
  charged passes = record {
    rated = charged-IsRated;
    same_interval = paid.same_interval ∙ c.same_interval;
    same_depth = paid.same_depth ∙ c.same_depth;
    prev_until = paid.same_prev ∙ c.prev_until;
    until_now = c.until_now;
    until_recent = c.until_recent;
    cost = omega (arith, charge_le, c.worth);
    cost_depth = omega (
      arith,
      charge_le,
      charge_depth,
      c.under_token,
      c.until_now,
      mul-add b.token_interval b.bucket_depth 1,
    );
    passes = passes;
  }

has_token :
    (b r : TokenBucket) (from t until : ℕ)
    → Credited b r from (t + word) until
    → 0 < b.bucket_depth
    → (0 < b.bucket_count) ⊎ (b.token_interval ≤ bucket_age (tick t) b.ticker_prev)
    → 0 < r.bucket_count
has_token b r from t until c h (inl g) = omega (arith, c.no_less)
has_token b r from t until c h (inr g) = c.earned (rw (tick_turn t) g) h

limit_conforms :
    (b r : TokenBucket)
    → r.forwarding_status ≡ b.forwarding_status
    → b.forwarding_status ≡ limit
    → 0 < r.bucket_count
    → ((conform r r.forwarding_status).0 ≡ true)
      × ((conform r r.forwarding_status).1.forwarding_status ≡ limit)
limit_conforms b r e l h =
    let s : r.forwarding_status ≡ limit = e ∙ l in
    subst
      (λ (x : ForwardingStatus).
        ((conform r x).0 ≡ true) × ((conform r x).1.forwarding_status ≡ limit))
      (sym s) ((limit_passes r h).0, (limit_passes r h).1 ∙ s)

packet_charged :
    (b r : TokenBucket) (from t until : ℕ)
    → IsRated b
    → Credited b r from (t + word) until
    → Step b from t (conform r r.forwarding_status) until
packet_charged b r from t until rated c =
    charged b r from t until c rated (conform r r.forwarding_status)
      (conform-Paid r r.forwarding_status refl (rw c.same_status rated.not_free))
      (λ l h g. limit_conforms b r c.same_status l (has_token b r from t until c h g))

packet_runs :
    (b r : TokenBucket) (now : ℕ)
    → refresh_bucket now b ≡ some r
    → bucket_packet now b ≡ some (conform r r.forwarding_status)
unfolding bucket_packet conform
packet_runs b r now e = rw (bucket_packet, e) refl

pub bucket_packet-Step :
    (b : TokenBucket) (t from : ℕ)
    → IsRated b
    → from ≤ t + word
    → b.ticker_prev ≡ tick from
    → (x : Bool × TokenBucket) × ((bucket_packet (tick t) b ≡ some x)
        × ((u : ℕ) × Step b from t x u))
bucket_packet-Step b t from rated before prev =
    let got =
      refresh_bucket-Credited b (t + word) from rated.has_rate rated.in_depth rated.small_depth
        (omega arith) before prev in
    let runs : refresh_bucket (tick t) b ≡ some got.0 = rw⁻¹ (tick_turn t) got.1.0 in
    (
      conform got.0 got.0.forwarding_status,
      (
        packet_runs b got.0 (tick t) runs,
        (got.1.1.0, packet_charged b got.0 from t got.1.1.0 rated got.1.1.1),
      ),
    )
