-- ===== src/Fib/Entry/Kept.antt =====
-- What the token buckets of an entry keep when they are refreshed and used.
use nrlsmf.Base.{
  ℕ, ◌+◌, ◌/◌, ◌%◌, ◌≡◌, refl, ap, ap₂, ◌∙◌, inl, inr, Bool, false, Bool-cases, some, List, [], ◌∷◌,
  ltb, arith, word,
}
use nrlsmf.Fib.Bucket.{
  TokenBucket, ForwardingStatus, block, hybrid, limit, forward, deny, bucket_age, credit,
  refresh_bucket, conform, bucket_packet,
}
use nrlsmf.Fib.Entry.{FibEntry, find_bucket, refresh_buckets}
use nrlsmf.Fib.Entry.Buckets.{count_if}
use nrlsmf.Fib.Entry.Count.{IsCounted, forwards, no_rate, unit_if, find_unit}

-- A change that leaves alone whether the bucket forwards, and its rate.
pub record Alike (b r : TokenBucket) : Type 0 where
  pub same_forwards : forwards r ≡ forwards b
  pub same_rate : no_rate r ≡ no_rate b

credit-Alike : (now age : ℕ) (b : TokenBucket) → Alike b (credit now age b)
unfolding credit
credit-Alike now age b =
    elim (Bool-cases (ltb b.bucket_depth ((b.bucket_count + age / b.token_interval) % word))) [
      | inl h ↦ rw h (record { same_forwards = refl; same_rate = refl })
      | inr h ↦ rw h (record { same_forwards = refl; same_rate = refl })
    ]

pub refresh_bucket-Alike :
    (now : ℕ) (b : TokenBucket)
    → no_rate b ≡ false
    → (r : TokenBucket) × ((refresh_bucket now b ≡ some r) × Alike b r)
unfolding refresh_bucket
refresh_bucket-Alike now b rated = elim (Bool-cases (ltb b.bucket_count b.bucket_depth)) [
  | inl h ↦ (
    credit now (bucket_age now b.ticker_prev) b,
    (simp (h, rated) refl, credit-Alike now (bucket_age now b.ticker_prev) b),
  )
  | inr h ↦ (
    record b { ticker_prev = now },
    (simp h refl, record { same_forwards = refl; same_rate = refl }),
  )
]

conform-Alike :
    (b : TokenBucket) (s : ForwardingStatus) → b.forwarding_status ≡ s → Alike b (conform b s).1
unfolding conform
conform-Alike b block e = record { same_forwards = refl; same_rate = refl }
conform-Alike b forward e = record { same_forwards = refl; same_rate = refl }
conform-Alike b deny e = record { same_forwards = refl; same_rate = refl }
conform-Alike b limit e = elim (Bool-cases (ltb 0 b.bucket_count)) [
  | inl h ↦ simp h (record { same_forwards = refl; same_rate = refl })
  | inr h ↦ simp h (record { same_forwards = refl; same_rate = refl })
]
conform-Alike b hybrid e = elim (Bool-cases (ltb 0 b.bucket_count)) [
  | inl h ↦ simp h (record { same_forwards = refl; same_rate = refl })
  | inr h ↦ simp h (record { same_forwards = rw e refl; same_rate = refl })
]

pub bucket_packet-Alike :
    (now : ℕ) (b : TokenBucket)
    → no_rate b ≡ false
    → (x : Bool × TokenBucket) × ((bucket_packet now b ≡ some x) × Alike b x.1)
unfolding bucket_packet
bucket_packet-Alike now b rated =
    let got = refresh_bucket-Alike now b rated in
    let used = conform-Alike got.0 got.0.forwarding_status refl in
    (
      conform got.0 got.0.forwarding_status,
      (
        rw (bucket_packet, got.1.0) refl,
        record {
          same_forwards = used.same_forwards ∙ got.1.1.same_forwards;
          same_rate = used.same_rate ∙ got.1.1.same_rate;
        },
      ),
    )

-- A counted entry has no bucket without a rate.
pub rated :
    (index : ℕ) (b : TokenBucket) (e : FibEntry)
    → IsCounted e
    → find_bucket index e.bucket_list ≡ some b
    → no_rate b ≡ false
rated index b e c found = elim (Bool-cases (no_rate b)) [
  | inl h ↦ absurd (omega (arith, rw h at (find_unit no_rate index b e.bucket_list found), c.rates))
  | inr h ↦ h
]

pub refreshed_list :
    (now : ℕ) (bs : List TokenBucket)
    → count_if no_rate bs ≡ 0
    → (rs : List TokenBucket) × ((refresh_buckets now bs ≡ some rs)
        × ((count_if forwards rs ≡ count_if forwards bs) × (count_if no_rate rs ≡ 0)))
unfolding refresh_buckets
refreshed_list now [] e = ([], (refl, (refl, refl)))
refreshed_list now (b ∷ bs) e = elim (Bool-cases (no_rate b)) [
  | inl h ↦ absurd (omega (arith, rw h at e))
  | inr h ↦
      let got = refresh_bucket-Alike now b h in
      let none_here : count_if no_rate bs ≡ 0 = omega (arith, e) in
      let rest = refreshed_list now bs none_here in
      (
        got.0 ∷ rest.0,
        (
          rw (refresh_buckets, got.1.0, rest.1.0) refl,
          (
            ap₂ (λ (m n : ℕ). m + n) (ap unit_if got.1.1.same_forwards) rest.1.1.0,
            omega (arith, ap unit_if got.1.1.same_rate, rw h at e, rest.1.1.1, ap unit_if h),
          ),
        ),
      )
]
