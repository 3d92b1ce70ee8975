-- ===== src/Fib/Entry/Count.antt =====
-- The count of forwarding interfaces of an entry, and the rates of its buckets.
use nrlsmf.Base.{
  ℕ, ◌+◌, ◌-◌, ◌%◌, ◌≤◌, ◌≡◌, ◌⊎◌, refl, ap, ◌∙◌, inl, inr, Bool, true, false, Bool-cases, none,
  some, Option-cases, List, [], ◌∷◌, map, ◌==◌, if◌then◌else◌, arith, word, sub32,
}
use nrlsmf.Fib.Bucket.{TokenBucket, ForwardingStatus, set_status, new_bucket, set_rate}
use nrlsmf.Fib.Entry.{FibEntry, find_bucket, change_bucket, is_forward, recount, recount_all}
use nrlsmf.Fib.Entry.Buckets.{
  BucketTree, Inserts, count_if, put_status, put_all_statuses, add_bucket, get_bucket,
}

abbrev pub forwards : TokenBucket → Bool
forwards b = is_forward b.forwarding_status

abbrev pub no_rate : TokenBucket → Bool
no_rate b = b.token_interval == 0

abbrev pub unit_if : Bool → ℕ
unit_if b = if b then 1 else 0

-- The count is that of the buckets that forward, at 32 bits, and no bucket is without a rate.
pub record IsCounted (e : FibEntry) : Type 0 where
  pub counts : e.forwarding_count ≡ count_if forwards e.bucket_list % word
  pub rates : count_if no_rate e.bucket_list ≡ 0

recount_units :
    (a b : Bool) (k n : ℕ)
    → n ≡ (k + unit_if a) % word
    → (if a then if b then n else sub32 n 1 else if b then (n + 1) % word else n)
      ≡ (k + unit_if b) % word
recount_units true true k n e = e
recount_units true false k n e = omega (arith, e)
recount_units false true k n e = omega (arith, e)
recount_units false false k n e = e

recount_moves :
    (old new : ForwardingStatus) (k n : ℕ)
    → n ≡ (k + unit_if (is_forward old)) % word
    → recount old new n ≡ (k + unit_if (is_forward new)) % word
unfolding recount
recount_moves old new k n e = recount_units (is_forward old) (is_forward new) k n e

recount_all_moves :
    (new : ForwardingStatus) (bs : List TokenBucket) (k n : ℕ)
    → n ≡ (k + count_if forwards bs) % word
    → recount_all new bs n ≡ (k + count_if forwards (map (set_status new) bs)) % word
unfolding recount_all set_status
recount_all_moves new [] k n e = e
recount_all_moves new (b ∷ bs) k n e =
    let here =
      recount_moves b.forwarding_status new (k + count_if forwards bs) n (omega (arith, e)) in
    let ih =
      recount_all_moves new bs (k + unit_if (is_forward new)) (recount b.forwarding_status new n)
        (omega (arith, here)) in
    omega (arith, ih)

-- Through a pointer to the bucket of an interface, only that bucket changes.
pub find_change :
    (test : TokenBucket → Bool) (index : ℕ) (f : TokenBucket → TokenBucket) (b : TokenBucket)
    (bs : List TokenBucket)
    → find_bucket index bs ≡ some b
    → count_if test (change_bucket index f bs) + unit_if (test b)
      ≡ count_if test bs + unit_if (test (f b))
unfolding find_bucket change_bucket
find_change test index f b [] e = cc e
find_change test index f b (c ∷ bs) e = elim (Bool-cases (c.iface_index == index)) [
  | inl h ↦
      let hit : some c ≡ some b = rw h at e in
      let same : c ≡ b = cc in
      rw h (
        omega (
          arith,
          ap (λ (x : TokenBucket). unit_if (test x)) same,
          ap (λ (x : TokenBucket). unit_if (test (f x))) same,
        ))
  | inr h ↦
      let later : find_bucket index bs ≡ some b = rw h at e in
      rw h (omega (arith, find_change test index f b bs later))
]

-- A bucket that is found is counted.
pub find_unit :
    (test : TokenBucket → Bool) (index : ℕ) (b : TokenBucket) (bs : List TokenBucket)
    → find_bucket index bs ≡ some b
    → unit_if (test b) ≤ count_if test bs
unfolding find_bucket
find_unit test index b [] e = cc e
find_unit test index b (c ∷ bs) e = elim (Bool-cases (c.iface_index == index)) [
  | inl h ↦
      let hit : some c ≡ some b = rw h at e in
      let same : c ≡ b = cc in omega (arith, ap (λ (x : TokenBucket). unit_if (test x)) same)
  | inr h ↦
      let later : find_bucket index bs ≡ some b = rw h at e in
      omega (arith, find_unit test index b bs later)
]

rates_same :
    (new : ForwardingStatus) (bs : List TokenBucket)
    → count_if no_rate (map (set_status new) bs) ≡ count_if no_rate bs
unfolding set_status
rates_same new [] = refl
rates_same new (b ∷ bs) = ap (λ (n : ℕ). unit_if (no_rate b) + n) (rates_same new bs)

pub put_all_statuses-IsCounted :
    (s : ForwardingStatus) (e : FibEntry) → IsCounted e → IsCounted (put_all_statuses s e)
unfolding put_all_statuses
put_all_statuses-IsCounted s e c = record {
  counts =
      omega
        (arith, recount_all_moves s e.bucket_list 0 e.forwarding_count (omega (arith, c.counts)));
  rates = rates_same s e.bucket_list ∙ c.rates;
}

pub put_status-IsCounted :
    (index : ℕ) (s : ForwardingStatus) (b : TokenBucket) (e : FibEntry)
    → find_bucket index e.bucket_list ≡ some b
    → IsCounted e
    → IsCounted (put_status index s b e)
unfolding put_status set_status
put_status-IsCounted index s b e found c =
    let changed = find_change forwards index (set_status s) b e.bucket_list found in
    let rated = find_change no_rate index (set_status s) b e.bucket_list found in
    let others = count_if forwards e.bucket_list - unit_if (forwards b) in
    let held = find_unit forwards index b e.bucket_list found in
    record {
      counts =
          recount_moves b.forwarding_status s others e.forwarding_count
            (omega (arith, c.counts, held))
          ∙ ap (λ (n : ℕ). n % word) (omega (arith, changed, held));
      rates = omega (arith, rated, c.rates);
    }

module _ (T : BucketTree) (L : Inserts T) where
  add_bucket-IsCounted :
      (index : ℕ) (e : FibEntry)
      → find_bucket index e.bucket_list ≡ none
      → IsCounted e
      → IsCounted (add_bucket T index e).1
  unfolding add_bucket set_status new_bucket set_rate
  add_bucket-IsCounted index e missing c =
      let b = set_status e.default_forwarding_status (new_bucket index) in
      let grown = L.insert_count forwards b e.bucket_list missing in
      let rated = L.insert_count no_rate b e.bucket_list missing in
      record {
        counts = elim (Bool-cases (is_forward e.default_forwarding_status)) [
          | inl h ↦ rw h (omega (arith, c.counts, rw h at grown))
          | inr h ↦ rw h (omega (arith, c.counts, rw h at grown))
        ];
        rates = omega (arith, rated, c.rates);
      }

  new_found :
      (index : ℕ) (e : FibEntry)
      → find_bucket index e.bucket_list ≡ none
      → find_bucket index (add_bucket T index e).1.bucket_list ≡ some (add_bucket T index e).0
  unfolding add_bucket set_status new_bucket set_rate
  new_found index e missing =
      L.insert_found (set_status e.default_forwarding_status (new_bucket index)) e.bucket_list
        missing

  -- GetBucket fails for want of memory, or returns a bucket of the list that it leaves.
  pub get_bucket_cases :
      (room : Bool) (index : ℕ) (e : FibEntry)
      → IsCounted e
      → (get_bucket T room index e ≡ none)
        ⊎ ((g : TokenBucket × FibEntry) × ((get_bucket T room index e ≡ some g)
              × ((find_bucket index g.1.bucket_list ≡ some g.0) × IsCounted g.1)))
  unfolding get_bucket
  get_bucket_cases false index e c = elim (Option-cases (find_bucket index e.bucket_list)) [
    | inl missing ↦ inl (rw (get_bucket, missing) refl)
    | inr f ↦ inr ((f.0, e), (rw (get_bucket, f.1) refl, (f.1, c)))
  ]
  get_bucket_cases true index e c = elim (Option-cases (find_bucket index e.bucket_list)) [
    | inl missing ↦ inr (
      add_bucket T index e,
      (
        rw (get_bucket, missing) refl,
        (new_found index e missing, add_bucket-IsCounted index e missing c),
      ),
    )
    | inr f ↦ inr ((f.0, e), (rw (get_bucket, f.1) refl, (f.1, c)))
  ]
