-- ===== src/Fib/Entry/Times.antt =====
-- The age that MulticastFIB::Entry::Age returns, and what Refresh makes of it.
use nrlsmf.Base.{
  ℕ, ◌<◌, ◌≡◌, refl, sym, ap, ◌∙◌, inl, inr, Bool, true, false, not, ◌&&◌, Bool-cases, none, some,
  Option-cases, arith, ◌==◌, if◌then◌else◌, sub32, word,
}
use nrlsmf.Fib.Ticks.{tick_age_max, is_aged}
use nrlsmf.Fib.Activity.{ActivityStatus, activity_age, refresh_activity}
use nrlsmf.Fib.Entry.{
  FibEntry, refresh_buckets, age_relays, keep_current, age_update, age_entry, count_update,
  refresh_entry,
}
use nrlsmf.Fib.Entry.Count.{IsCounted}
use nrlsmf.Fib.Entry.Operations.{
  keep_current-IsCounted, age_update-IsCounted, count_update-IsCounted,
}

abbrev pub entry_age : ℕ → FibEntry → ℕ
entry_age now e = (activity_age now e.activity_status).0

keep_current_activity :
    (now : ℕ) (e f : FibEntry) → keep_current now e ≡ some f → f.activity_status ≡ e.activity_status
unfolding keep_current age_relays
keep_current_activity now e f h = elim (Option-cases (refresh_buckets now e.bucket_list)) [
  | inl g ↦ let nothing : none ≡ some f = sym (rw (keep_current, g) refl) ∙ h in absurd (cc nothing)
  | inr (bs, g) ↦
      let made : some (age_relays now (record e { bucket_list = bs })) ≡ some f =
        sym (rw (keep_current, g) refl) ∙ h in
      let same : age_relays now (record e { bucket_list = bs }) ≡ f = cc in
      ap (λ (x : FibEntry). x.activity_status) (sym same)
]

age_of_three :
    (a b : Bool) (v : ℕ) (x y z : ℕ × FibEntry)
    → (a ≡ true → x.0 ≡ v)
    → y.0 ≡ v
    → z.0 ≡ v
    → (if a then x else if b then y else z).0 ≡ v
age_of_three true b v x y z f g h = f refl
age_of_three false true v x y z f g h = g
age_of_three false false v x y z f g h = h

age_update_age : (now : ℕ) (e : FibEntry) → (age_update now e).0 ≡ entry_age now e
unfolding age_update
age_update_age now e =
    age_of_three (entry_age now e == tick_age_max)
      (not e.update_max && is_aged (sub32 now e.update_start)) (entry_age now e) _ _ _
      (λ h. ground arith) refl refl

-- Age of a counted entry has a result, the age of its activity.
pub age_entry_age :
    (now : ℕ) (e : FibEntry)
    → IsCounted e
    → (r : ℕ × FibEntry) × ((age_entry now e ≡ some r) × ((r.0 ≡ entry_age now e) × IsCounted r.1))
unfolding age_entry
age_entry_age now e c =
    let got = keep_current-IsCounted now e c in
    let same = keep_current_activity now e got.0 got.1.0 in
    (
      age_update now got.0,
      (
        rw (age_entry, got.1.0) refl,
        (
          age_update_age now got.0 ∙ ap (λ (a : ActivityStatus). (activity_age now a).0) same,
          age_update-IsCounted now got.0 got.1.1,
        ),
      ),
    )

just_seen :
    (now : ℕ) (a : ActivityStatus)
    → now < word
    → (activity_age now (refresh_activity now true a)).0 ≡ 0
unfolding activity_age refresh_activity
just_seen now a h = let none_passed : sub32 now now ≡ 0 = omega arith in rw none_passed refl

count_update_activity :
    (now : ℕ) (e : FibEntry)
    → (count_update now e).activity_status ≡ refresh_activity now true e.activity_status
unfolding count_update
count_update_activity now e = elim (Bool-cases (e.update_count == 0)) [
  | inl h ↦ simp h refl
  | inr h ↦ simp h refl
]

-- After Refresh, the age at the same tick is 0.
pub refresh_entry_fresh :
    (now : ℕ) (e : FibEntry)
    → now < word
    → IsCounted e
    → (f : FibEntry) × ((refresh_entry now e ≡ some f) × ((entry_age now f ≡ 0) × IsCounted f))
unfolding refresh_entry
refresh_entry_fresh now e small c =
    let got = keep_current-IsCounted now (count_update now e) (count_update-IsCounted now e c) in
    let same = keep_current_activity now (count_update now e) got.0 got.1.0 in
    (
      got.0,
      (
        got.1.0,
        (
          ap (λ (a : ActivityStatus). (activity_age now a).0) (same ∙ count_update_activity now e)
              ∙ just_seen now e.activity_status small,
          got.1.1,
        ),
      ),
    )
