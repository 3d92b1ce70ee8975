-- ===== src/Fib/Ticks.antt =====
-- The 32-bit tick counter of src/common/mcastFib.cpp, and the ages that its differences stand for.
use nrlsmf.Base.{
  ℕ, ◌+◌, ◌-◌, ◌%◌, ◌^◌, ◌≤◌, ◌<◌, ◌≡◌, Bool, true, arith, ltb, leb, List, [], ◌∷◌, if◌then◌else◌,
  sub32, word,
}

-- TICK_AGE_MAX.
abbrev pub tick_age_max : ℕ
tick_age_max = 2 ^ 30

-- The reading of the counter at a true time in ticks.
abbrev pub tick : ℕ → ℕ
tick t = t % word

-- `(age < 0) || (age > TICK_AGE_MAX)` on a difference of two readings as an `int`.
abbrev pub is_aged : ℕ → Bool
is_aged age = if leb (2 ^ 31) age then true else ltb tick_age_max age

-- The difference of two readings is that of the times, if less than one turn lies between them.
pub sub32-tick : (t p : ℕ) → p ≤ t → t < p + word → sub32 (tick t) (tick p) ≡ t - p
sub32-tick t p h g = omega arith

-- It is never more than that.
pub sub32-tick_le : (t p : ℕ) → p ≤ t → sub32 (tick t) (tick p) ≤ t - p
sub32-tick_le t p h = omega arith

-- A time and the time one turn of the counter later have one reading.
pub tick_turn : (t : ℕ) → tick (t + word) ≡ tick t
tick_turn t = omega arith

-- The times of a list follow `t` and one another by `low` ticks at least and `high` at most.
abbrev pub Spaced : ℕ → ℕ → ℕ → List ℕ → Type 0
Spaced low high t [] = Unit
Spaced low high t (u ∷ us) = (t + low ≤ u) × ((u ≤ t + high) × Spaced low high u us)

-- The times do not run back.
abbrev pub Ordered : ℕ → List ℕ → Type 0
Ordered t [] = Unit
Ordered t (u ∷ us) = (t ≤ u) × Ordered u us

-- The last of the times, or `t`.
abbrev pub latest : ℕ → List ℕ → ℕ
latest t [] = t
latest t (u ∷ us) = latest u us

pub latest_le : (t : ℕ) (us : List ℕ) → Ordered t us → t ≤ latest t us
latest_le t [] o = omega arith
latest_le t (u ∷ us) o = omega (arith, o.0, latest_le u us o.1)

-- The longest pause between two looks at the counter in which an age that has passed the maximum
-- cannot come back as a low one.
abbrev pub age_gap : ℕ
age_gap = word - tick_age_max - 1
