-- ===== src/Fib/Entry/Operations.antt =====
-- Any sequence of operations on an entry.
use nrlsmf.Base.{
  ℕ, ◌+◌, ◌%◌, ◌≡◌, refl, ap, ap₂, sym, ◌∙◌, inl, inr, Bool, true, false, not, ◌&&◌, Bool-cases,
  Option, none, some, List, [], ◌∷◌, map, ◌==◌, if◌then◌else◌, arith, word, sub32,
}
use nrlsmf.Fib.Bucket.{TokenBucket, ForwardingStatus, reset_bucket}
use nrlsmf.Fib.Ticks.{tick_age_max, is_aged}
use nrlsmf.Fib.Activity.{activity_age}
use nrlsmf.Fib.Relay.{AckingCondition}
use nrlsmf.Fib.Entry.{
  FibEntry, new_entry, change_bucket, reset_buckets, set_acking_status, keep_current, age_relays,
  refresh_entry, age_entry, age_update, count_update, reset_entry,
}
use nrlsmf.Fib.Entry.Buckets.{
  BucketTree, Inserts, count_if, set_forwarding_status, check_bucket, put_all_statuses, put_status,
}
use nrlsmf.Fib.Entry.Count.{
  IsCounted, forwards, no_rate, unit_if, find_change, put_all_statuses-IsCounted,
  put_status-IsCounted, get_bucket_cases,
}
use nrlsmf.Fib.Entry.Kept.{bucket_packet-Alike, rated, refreshed_list}

-- The operations, with the times, and with whether there is memory for a new bucket.
pub data EntryOp : Type 0 where
  default_to : ForwardingStatus → EntryOp
  status_on : Bool → ℕ → ForwardingStatus → Bool → EntryOp
  packet_on : Bool → ℕ → ℕ → EntryOp
  acking_to : Bool → EntryOp
  refresh_op : ℕ → EntryOp
  age_op : ℕ → EntryOp
  reset_op : ℕ → EntryOp
  reset_buckets_op : EntryOp

-- The entry after an operation; what it returns besides is left out.
unfoldable pub apply_op : BucketTree → EntryOp → FibEntry → Option FibEntry
unfolding set_forwarding_status check_bucket set_acking_status refresh_entry age_entry reset_entry
    reset_buckets
apply_op T (default_to s) e = some (record e { default_forwarding_status = s })
apply_op T (status_on room index s acking) e =
    some (set_forwarding_status T room index s acking e).1
apply_op T (packet_on room index now) e = elim (check_bucket T room index now e) [
  | none ↦ none
  | some r ↦ some r.1
]
apply_op T (acking_to s) e = some (set_acking_status s e)
apply_op T (refresh_op now) e = refresh_entry now e
apply_op T (age_op now) e = elim (age_entry now e) [ none ↦ none | some r ↦ some r.1 ]
apply_op T (reset_op now) e = some (reset_entry now e)
apply_op T reset_buckets_op e = some (reset_buckets e)

unfoldable pub apply_ops : BucketTree → List EntryOp → FibEntry → Option FibEntry
unfolding apply_op
apply_ops T [] e = some e
apply_ops T (op ∷ ops) e = elim (apply_op T op e) [ none ↦ none | some f ↦ apply_ops T ops f ]

acking-IsCounted : (s : Bool) (e : FibEntry) → IsCounted e → IsCounted (set_acking_status s e)
unfolding set_acking_status
acking-IsCounted true e c = record { counts = c.counts; rates = c.rates }
acking-IsCounted false e c = elim (Bool-cases e.acking_status) [
  | inl h ↦ simp h (record { counts = c.counts; rates = c.rates })
  | inr h ↦ simp h c
]

reset_counts :
    (test : TokenBucket → Bool) (bs : List TokenBucket)
    → ((b : TokenBucket) → test (reset_bucket 0 b) ≡ test b)
    → count_if test (map (reset_bucket 0) bs) ≡ count_if test bs
reset_counts test [] same = refl
reset_counts test (b ∷ bs) same =
    ap₂ (λ (m n : ℕ). m + n) (ap unit_if (same b)) (reset_counts test bs same)

pub reset_buckets-IsCounted : (e : FibEntry) → IsCounted e → IsCounted (reset_buckets e)
unfolding reset_buckets reset_bucket
reset_buckets-IsCounted e c = record {
  counts =
      c.counts ∙ ap (λ (n : ℕ). n % word) (sym (reset_counts forwards e.bucket_list (λ b. refl)));
  rates = reset_counts no_rate e.bucket_list (λ b. refl) ∙ c.rates;
}

pub keep_current-IsCounted :
    (now : ℕ) (e : FibEntry)
    → IsCounted e
    → (f : FibEntry) × ((keep_current now e ≡ some f) × IsCounted f)
unfolding keep_current age_relays
keep_current-IsCounted now e c =
    let got = refreshed_list now e.bucket_list c.rates in
    (
      age_relays now (record e { bucket_list = got.0 }),
      (
        rw (keep_current, got.1.0) refl,
        record { counts = c.counts ∙ ap (λ (n : ℕ). n % word) (sym got.1.1.0); rates = got.1.1.1 },
      ),
    )

one_of_three :
    (a b : Bool) (x y z : ℕ × FibEntry)
    → IsCounted x.1
    → IsCounted y.1
    → IsCounted z.1
    → IsCounted (if a then x else if b then y else z).1
one_of_three true b x y z p q r = p
one_of_three false true x y z p q r = q
one_of_three false false x y z p q r = r

pub age_update-IsCounted : (now : ℕ) (e : FibEntry) → IsCounted e → IsCounted (age_update now e).1
unfolding age_update
age_update-IsCounted now e c =
    one_of_three ((activity_age now e.activity_status).0 == tick_age_max)
      (not e.update_max && is_aged (sub32 now e.update_start)) _ _ _
      (record { counts = c.counts; rates = c.rates })
      (record { counts = c.counts; rates = c.rates })
      (record { counts = c.counts; rates = c.rates })

pub count_update-IsCounted : (now : ℕ) (e : FibEntry) → IsCounted e → IsCounted (count_update now e)
unfolding count_update
count_update-IsCounted now e c = elim (Bool-cases (e.update_count == 0)) [
  | inl h ↦ simp h (record { counts = c.counts; rates = c.rates })
  | inr h ↦ simp h (record { counts = c.counts; rates = c.rates })
]

module _ (T : BucketTree) (L : Inserts T) where
  set_forwarding_status-IsCounted :
      (room : Bool) (index : ℕ) (s : ForwardingStatus) (acking : Bool) (e : FibEntry)
      → IsCounted e
      → IsCounted (set_forwarding_status T room index s acking e).1
  unfolding set_forwarding_status
  set_forwarding_status-IsCounted room index s acking e c = elim (Bool-cases (index == 0)) [
    | inl all ↦
        rw all (acking-IsCounted acking (put_all_statuses s e) (put_all_statuses-IsCounted s e c))
    | inr one ↦ elim (get_bucket_cases T L room index e c) [
      | inl h ↦ rw (one, set_forwarding_status, h) c
      | inr g ↦
          rw (one, set_forwarding_status, g.1.0)
            (acking-IsCounted acking (put_status index s g.0.0 g.0.1)
              (put_status-IsCounted index s g.0.0 g.0.1 g.1.1.0 g.1.1.1))
    ]
  ]

  packet_on-IsCounted :
      (room : Bool) (index now : ℕ) (e : FibEntry)
      → IsCounted e
      → (f : FibEntry) × ((apply_op T (packet_on room index now) e ≡ some f) × IsCounted f)
  unfolding apply_op check_bucket
  packet_on-IsCounted room index now e c = elim (get_bucket_cases T L room index e c) [
    | inl h ↦ (e, (rw (h, apply_op, check_bucket) refl, c))
    | inr g ↦
        let b = g.0.0 in
        let f = g.0.1 in
        let used = bucket_packet-Alike now b (rated index b f g.1.1.1 g.1.1.0) in
        let x = used.0 in
        let h = find_change forwards index (λ (d : TokenBucket). x.1) b f.bucket_list g.1.1.0 in
        let i = find_change no_rate index (λ (d : TokenBucket). x.1) b f.bucket_list g.1.1.0 in
        (
          record f { bucket_list = change_bucket index (λ (d : TokenBucket). x.1) f.bucket_list },
          (
            rw (apply_op, check_bucket, g.1.0, used.1.0) refl,
            record {
              counts =
                  g.1.1.1.counts
                  ∙ ap (λ (n : ℕ). n % word) (omega (arith, h, ap unit_if used.1.1.same_forwards));
              rates = omega (arith, i, ap unit_if used.1.1.same_rate, g.1.1.1.rates);
            },
          ),
        )
  ]

  refresh_op-IsCounted :
      (now : ℕ) (e : FibEntry)
      → IsCounted e
      → (f : FibEntry) × ((apply_op T (refresh_op now) e ≡ some f) × IsCounted f)
  unfolding apply_op refresh_entry
  refresh_op-IsCounted now e c =
      keep_current-IsCounted now (count_update now e) (count_update-IsCounted now e c)

  age_op-IsCounted :
      (now : ℕ) (e : FibEntry)
      → IsCounted e
      → (f : FibEntry) × ((apply_op T (age_op now) e ≡ some f) × IsCounted f)
  unfolding apply_op age_entry
  age_op-IsCounted now e c =
      let got = keep_current-IsCounted now e c in
      (
        (age_update now got.0).1,
        (rw (apply_op, age_entry, got.1.0) refl, age_update-IsCounted now got.0 got.1.1),
      )

  apply_op-IsCounted :
      (op : EntryOp) (e : FibEntry)
      → IsCounted e
      → (f : FibEntry) × ((apply_op T op e ≡ some f) × IsCounted f)
  unfolding apply_op reset_entry
  apply_op-IsCounted (default_to s) e c = (
    record e { default_forwarding_status = s },
    (refl, record { counts = c.counts; rates = c.rates }),
  )
  apply_op-IsCounted (status_on room index s acking) e c = (
    (set_forwarding_status T room index s acking e).1,
    (refl, set_forwarding_status-IsCounted room index s acking e c),
  )
  apply_op-IsCounted (packet_on room index now) e c = packet_on-IsCounted room index now e c
  apply_op-IsCounted (acking_to s) e c = (set_acking_status s e, (refl, acking-IsCounted s e c))
  apply_op-IsCounted (refresh_op now) e c = refresh_op-IsCounted now e c
  apply_op-IsCounted (age_op now) e c = age_op-IsCounted now e c
  apply_op-IsCounted (reset_op now) e c =
      (reset_entry now e, (refl, record { counts = c.counts; rates = c.rates }))
  apply_op-IsCounted reset_buckets_op e c = (reset_buckets e, (refl, reset_buckets-IsCounted e c))

  apply_ops-IsCounted_from :
      (ops : List EntryOp) (e : FibEntry)
      → IsCounted e
      → (f : FibEntry) × ((apply_ops T ops e ≡ some f) × IsCounted f)
  unfolding apply_ops
  apply_ops-IsCounted_from [] e c = (e, (refl, c))
  apply_ops-IsCounted_from (op ∷ ops) e c =
      let one = apply_op-IsCounted op e c in
      let rest = apply_ops-IsCounted_from ops one.0 one.1.1 in
      (rest.0, (rw (apply_ops, one.1.0, rest.1.0) refl, rest.1.1))

  -- If the bucket tree inserts a bucket for an interface that it has none for, and nothing
  -- else, then from a new entry, whatever its memory held, any sequence of SetForwardingStatus,
  -- packet checks, SetAckingStatus, SetDefaultForwardingStatus, Refresh, Age, Reset and
  -- ResetTokenBuckets has a result, without a division by 0, after which `forwarding_count` is
  -- the number of buckets with the status FORWARD, at 32 bits, and every bucket has a token
  -- interval other than 0.
  pub apply_ops-IsCounted :
      (ops : List EntryOp) (c : AckingCondition) (count start : ℕ) (over : Bool)
      → (f : FibEntry) × ((apply_ops T ops (new_entry c count start over) ≡ some f) × IsCounted f)
  unfolding new_entry
  apply_ops-IsCounted ops c count start over =
      apply_ops-IsCounted_from ops (new_entry c count start over)
        (record { counts = refl; rates = refl })
