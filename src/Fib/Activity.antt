-- ===== src/Fib/Activity.antt =====
-- MulticastFIB::ActivityStatus of include/mcastFib.h and src/common/mcastFib.cpp: how long ago a
-- flow or a relay was last seen, on a counter that wraps around.
use native.Mathlib.Decide.{dec_le}
use nrlsmf.Base.{
  ℕ, ◌+◌, ◌-◌, ◌≤◌, ◌<◌, min, ◌≡◌, refl, ap₂, Bool, true, false, not, ◌&&◌, List, [], ◌∷◌, map,
  arith, if◌then◌else◌, sub32, word,
}
use nrlsmf.Fib.Ticks.{tick_age_max, tick, is_aged, sub32-tick, Spaced, age_gap}

pub record ActivityStatus : Type 0 where
  pub age_tick : ℕ
  pub age_max : Bool
  pub active : Bool

-- The constructor.
unfoldable pub no_activity : ActivityStatus
no_activity = record { age_tick = 0; age_max = true; active = false }

-- Refresh, Deactivate, Invalidate.
unfoldable pub refresh_activity : ℕ → Bool → ActivityStatus → ActivityStatus
refresh_activity now activate a = record a { age_tick = now; age_max = false; active = activate }

unfoldable pub deactivate : ActivityStatus → ActivityStatus
deactivate a = record a { active = false }

unfoldable pub invalidate : ActivityStatus → ActivityStatus
invalidate a = record a { age_max = true; active = false }

-- IsValid, IsActive.
abbrev pub activity_is_valid : ActivityStatus → Bool
activity_is_valid a = not a.age_max

unfoldable pub is_active : ActivityStatus → Bool
is_active a = activity_is_valid a && a.active

-- Age. An age beyond the maximum is remembered as such.
unfoldable pub activity_age : ℕ → ActivityStatus → ℕ × ActivityStatus
activity_age now a =
    let age = sub32 now a.age_tick in
    if a.age_max
    then (tick_age_max, a)
    else if is_aged age
    then (tick_age_max, record a { age_max = true; active = false })
    else (age, a)

-- The ages at the times of a list, one after the other.
unfoldable pub ages : List ℕ → ActivityStatus → List ℕ
ages [] a = []
ages (t ∷ ts) a = let r = activity_age (tick t) a in r.0 ∷ ages ts r.1

aged_before :
    (t first : ℕ)
    → first + tick_age_max < t
    → t < first + word
    → is_aged (sub32 (tick t) (tick first)) ≡ true
aged_before t first h g = ground (arith, sub32-tick t first (omega arith) g)

aged_after :
    (t first : ℕ)
    → first ≤ t
    → t ≤ first + tick_age_max
    → is_aged (sub32 (tick t) (tick first)) ≡ false
aged_after t first h g = ground (arith, sub32-tick t first h (omega arith))

age_over :
    (now : ℕ) (a : ActivityStatus) → a.age_max ≡ true → activity_age now a ≡ (tick_age_max, a)
unfolding activity_age
age_over now a m = simp m refl

age_young :
    (now : ℕ) (a : ActivityStatus)
    → a.age_max ≡ false
    → is_aged (sub32 now a.age_tick) ≡ false
    → activity_age now a ≡ (sub32 now a.age_tick, a)
unfolding activity_age
age_young now a m y = simp (m, y) refl

age_old :
    (now : ℕ) (a : ActivityStatus)
    → a.age_max ≡ false
    → is_aged (sub32 now a.age_tick) ≡ true
    → activity_age now a ≡ (tick_age_max, record a { age_max = true; active = false })
unfolding activity_age
age_old now a m y = simp (m, y) refl

-- Once it is over the maximum, an age stays there.
ages_over :
    (first t : ℕ) (us : List ℕ) (a : ActivityStatus)
    → a.age_max ≡ true
    → first + tick_age_max ≤ t
    → Spaced 0 age_gap t us
    → ages us a ≡ map (λ (u : ℕ). min (u - first) tick_age_max) us
unfolding ages
ages_over first t [] a m h p = refl
ages_over first t (u ∷ us) a m h p = rw (age_over (tick u) a m) (
    ap₂ (λ (x : ℕ) (xs : List ℕ). x ∷ xs) (omega arith)
      (ages_over first u us a m (omega (arith, p.0)) p.1.1))

ages_from :
    (first t : ℕ) (us : List ℕ) (a : ActivityStatus)
    → a.age_max ≡ false
    → a.age_tick ≡ tick first
    → first ≤ t
    → t ≤ first + tick_age_max
    → Spaced 0 age_gap t us
    → ages us a ≡ map (λ (u : ℕ). min (u - first) tick_age_max) us
unfolding ages
ages_from first t [] a m e h g p = refl
ages_from first t (u ∷ us) a m e h g p = elim (dec_le u (first + tick_age_max)) [
  | yes s ↦
      let young = aged_after u first (omega (arith, p.0)) s in
      let exact = sub32-tick u first (omega (arith, p.0)) (omega arith) in
      rw (age_young (tick u) a m (rw e young)) (
        ap₂ (λ (x : ℕ) (xs : List ℕ). x ∷ xs) (rw (e, exact) (omega arith))
          (ages_from first u us a m e (omega (arith, p.0)) s p.1.1))
  | no s ↦
      let old = aged_before u first (omega arith) (omega (arith, p.1.0)) in
      rw (age_old (tick u) a m (rw e old)) (
        ap₂ (λ (x : ℕ) (xs : List ℕ). x ∷ xs) (omega arith)
          (ages_over first u us (record a { age_max = true; active = false }) refl (omega arith)
            p.1.1))
]

-- After Refresh of an ActivityStatus, calls of Age at any times that do not run back, with
-- pauses of `2 ^ 32 - 2 ^ 30 - 1` ticks at most, return the true time since the Refresh, or
-- TICK_AGE_MAX once that is more, however often the 32-bit counter wraps.
pub ages_exact :
    (first : ℕ) (us : List ℕ) (activate : Bool) (a : ActivityStatus)
    → Spaced 0 age_gap first us
    → ages us (refresh_activity (tick first) activate a)
      ≡ map (λ (u : ℕ). min (u - first) tick_age_max) us
unfolding refresh_activity
ages_exact first us activate a p =
    ages_from first first us (refresh_activity (tick first) activate a) refl refl (omega arith)
      (omega arith) p
