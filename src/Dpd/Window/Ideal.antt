-- ===== src/Dpd/Window/Ideal.antt =====
-- The ideal window: the newest sequence number of a flow, and which of the last `n` were received.
use nrlsmf.Base.{
  ℕ, suc, ◌^◌, ◌<◌, ◌≡◌, Bool, true, false, ◌&&◌, ◌||◌, Option, none, some, ltb, ◌==◌,
  if◌then◌else◌,
}
use nrlsmf.Dpd.Ring.{ahead}

pub record Ideal : Type 0 where
  pub top : Option ℕ
  pub seen : ℕ → Bool

abbrev pub only : ℕ → Ideal
only q = record { top = some q; seen = λ r. r == q }

module _ (k n : ℕ) where
  abbrev pub newer : ℕ → Ideal → Ideal
  newer q v = record { top = some q; seen = λ r. r == q || (v.seen r && ltb (ahead k q r) n) }

  abbrev pub noted : ℕ → Ideal → Ideal
  noted q v = record v { seen = λ r. r == q || v.seen r }

  unfoldable pub against : ℕ → ℕ → Ideal → Bool × Ideal
  against q l v =
      if ahead k q l == 0
      then (true, v)
      else if ltb (ahead k q l) (2 ^ k)
      then (false, newer q v)
      else if ltb (ahead k l q) n
      then (if v.seen q then (true, v) else (false, noted q v))
      else (false, only q)

  -- What a receiver does with number `q`: whether it has been received, and the window after it.
  unfoldable pub receive : ℕ → Ideal → Bool × Ideal
  receive q v = elim v.top [ none ↦ (false, only q) | some l ↦ against q l v ]

  -- The numbers marked are the last `n` up to the newest.
  abbrev pub Within : Option ℕ → Ideal → Type 0
  Within none v = Unit {0}
  Within (some l) v =
      (l < 2 ^ suc k) × ((r : ℕ) → r < 2 ^ suc k → v.seen r ≡ true → ahead k l r < n)

  abbrev pub IsWindow : Ideal → Type 0
  IsWindow v = Within v.top v
