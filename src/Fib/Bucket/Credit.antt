-- ===== src/Fib/Bucket/Credit.antt =====
-- What TokenBucket::Refresh gives to a bucket, against the true times of the calls.
use native.Mathlib.Decide.{dec_lt}
use native.Mathlib.Nat.{div-add-mod, mul-add, mul_comm, mod-lt, div-le_self, mul-le-mul_left}
use nrlsmf.Base.{
  ℕ, ◌+◌, ◌-◌, ◌*◌, ◌/◌, ◌%◌, ◌^◌, ◌≤◌, ◌<◌, ◌≡◌, refl, subst, inl, inr, true, false, some, arith,
  Bool-cases, ltb, ◌==◌, sub32, word,
}
use nrlsmf.Fib.Ticks.{tick_age_max, tick, sub32-tick, sub32-tick_le}
use nrlsmf.Fib.Bucket.{TokenBucket, bucket_age, credit, refresh_bucket}

-- The age that Refresh works with is at most the true one, and no less than it up to the maximum.
pub bucket_age_le : (t p : ℕ) → p ≤ t → bucket_age (tick t) (tick p) ≤ t - p
unfolding bucket_age
bucket_age_le t p h = ground (arith, sub32-tick_le t p h)

pub bucket_age_max : (now prev : ℕ) → bucket_age now prev ≤ tick_age_max
unfolding bucket_age
bucket_age_max now prev = ground arith

pub bucket_age_ge :
    (t p n : ℕ) → p + n ≤ t → t < p + word → n ≤ tick_age_max → n ≤ bucket_age (tick t) (tick p)
unfolding bucket_age
bucket_age_ge t p n h g m = ground (arith, sub32-tick t p (omega arith) g)

-- A bucket that was credited at `t` up to the true time `until`, from one credited up to `from`.
pub record Credited (b r : TokenBucket) (from t until : ℕ) : Type 0 where
  pub same_interval : r.token_interval ≡ b.token_interval
  pub same_depth : r.bucket_depth ≡ b.bucket_depth
  pub same_status : r.forwarding_status ≡ b.forwarding_status
  pub in_depth : r.bucket_count ≤ r.bucket_depth
  pub no_less : b.bucket_count ≤ r.bucket_count
  pub prev_until : r.ticker_prev ≡ tick until
  pub until_now : until ≤ t
  pub until_recent : t ≤ until + tick_age_max
  pub under_token : t < until + b.token_interval
  pub worth :
      b.token_interval * r.bucket_count + (t - until)
      ≤ b.token_interval * b.bucket_count + (t - from)
  pub earned :
      b.token_interval ≤ bucket_age (tick t) b.ticker_prev → 0 < b.bucket_depth → 0 < r.bucket_count

whole_tokens : (age i : ℕ) → 0 < i → i ≤ age → 0 < age / i
whole_tokens age i h g = elim (dec_lt 0 (age / i)) [
  | yes y ↦ y
  | no n ↦
      let none_whole : i * (age / i) ≡ 0 =
        subst (λ (q : ℕ). i * q ≡ 0) {x = 0} (omega arith) (omega arith) in
      absurd (omega (arith, div-add-mod age i, mod-lt age h, none_whole))
]

module _ (b : TokenBucket) (t from age : ℕ) (pos : 0 < b.token_interval)
    (low : b.bucket_count < b.bucket_depth) (small : b.bucket_depth < 2 ^ 31)
    (late : tick_age_max ≤ t) (ahead : age ≤ t - from) (recent : age ≤ tick_age_max)
    (is_age : bucket_age (tick t) b.ticker_prev ≡ age) where
  tokens : ℕ
  tokens = age / b.token_interval

  left_over : ℕ
  left_over = age % b.token_interval

  split : b.token_interval * tokens + left_over ≡ age
  unfolding tokens left_over
  split = div-add-mod age b.token_interval

  tokens_le : tokens ≤ age
  unfolding tokens
  tokens_le = omega (arith, div-le_self age b.token_interval)

  remainder : sub32 age ((tokens * b.token_interval) % word) ≡ left_over
  remainder = omega (arith, split, mul_comm tokens b.token_interval)

  spent :
      b.token_interval * (b.bucket_count + tokens)
      ≡ b.token_interval * b.bucket_count + b.token_interval * tokens
  spent = mul-add b.token_interval b.bucket_count tokens

  counted : (b.bucket_count + tokens) % word ≡ b.bucket_count + tokens
  counted = omega (arith, tokens_le)

  fills : b.bucket_depth < b.bucket_count + tokens → Credited b (credit (tick t) age b) from t t
  unfolding credit tokens
  fills full =
      let over : ltb b.bucket_depth (b.bucket_count + age / b.token_interval) ≡ true =
        ground (arith, full) in
      rw (counted, over)
        (record {
          same_interval = refl;
          same_depth = refl;
          same_status = refl;
          in_depth = omega arith;
          no_less = omega arith;
          prev_until = refl;
          until_now = omega arith;
          until_recent = omega arith;
          under_token = omega arith;
          worth = omega (
            arith,
            mul-le-mul_left {m = b.bucket_depth} {n = b.bucket_count + tokens} b.token_interval
                (omega arith),
            spent,
            split,
          );
          earned = λ h g. g;
        })

  adds :
      b.bucket_count + tokens ≤ b.bucket_depth
      → Credited b (credit (tick t) age b) from t (t - left_over)
  unfolding credit tokens left_over
  adds fits =
      let under : ltb b.bucket_depth (b.bucket_count + age / b.token_interval) ≡ false =
        ground (arith, fits) in
      rw (counted, under, remainder)
        (record {
          same_interval = refl;
          same_depth = refl;
          same_status = refl;
          in_depth = fits;
          no_less = omega arith;
          prev_until = omega (arith, split);
          until_now = omega arith;
          until_recent = omega (arith, split);
          under_token = omega (arith, split, mod-lt age pos);
          worth = omega (arith, spent, split);
          earned = λ h g. omega (arith, whole_tokens age b.token_interval pos (rw⁻¹ is_age h));
        })

  credited : (u : ℕ) × Credited b (credit (tick t) age b) from t u
  credited = elim (Bool-cases (ltb b.bucket_depth (b.bucket_count + tokens))) [
    | inl h ↦ (t, fills (ground arith))
    | inr h ↦ (t - left_over, adds (ground arith))
  ]

-- Refresh of a bucket with an interval: it has a result, credited up to some time.
pub refresh_bucket-Credited :
    (b : TokenBucket) (t from : ℕ)
    → 0 < b.token_interval
    → b.bucket_count ≤ b.bucket_depth
    → b.bucket_depth < 2 ^ 31
    → tick_age_max ≤ t
    → from ≤ t
    → b.ticker_prev ≡ tick from
    → (r : TokenBucket) × ((refresh_bucket (tick t) b ≡ some r) × ((u : ℕ) × Credited b r from t u))
unfolding refresh_bucket
refresh_bucket-Credited b t from pos fits small late before prev =
    let age = bucket_age (tick t) b.ticker_prev in
    let known : age ≤ t - from = rw prev (bucket_age_le t from before) in
    elim (Bool-cases (ltb b.bucket_count b.bucket_depth)) [
      | inl h ↦
          let divides : (b.token_interval == 0) ≡ false = ground arith in
          (
            credit (tick t) age b,
            (
              simp (h, divides) refl,
              credited b t from age pos (ground arith) small late known
                  (bucket_age_max (tick t) b.ticker_prev) refl,
            ),
          )
      | inr h ↦ (
        record b { ticker_prev = tick t },
        (
          simp h refl,
          (
            t,
            record {
              same_interval = refl;
              same_depth = refl;
              same_status = refl;
              in_depth = fits;
              no_less = omega arith;
              prev_until = refl;
              until_now = omega arith;
              until_recent = omega arith;
              under_token = omega arith;
              worth = omega arith;
              earned = λ e g. ground arith;
            },
          ),
        ),
      )
    ]
