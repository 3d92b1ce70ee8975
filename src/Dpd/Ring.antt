-- ===== src/Dpd/Ring.antt =====
-- Positions on a ring of `2 ^ (k + 1)` sequence numbers.
use native.Mathlib.Nat.{add-mul-mod_self_right, mod-eq_of_lt}
use native.Mathlib.Decide.{dec_le}
use nrlsmf.Base.{ℕ, suc, ◌+◌, ◌-◌, ◌*◌, ◌%◌, ◌^◌, ◌≤◌, ◌<◌, ◌≡◌, ap, ◌∙◌, ◌⊎◌, inl, inr, arith}

-- How far position `a` is ahead of position `b` on the ring of `2 ^ (k + 1)` positions.
unfoldable pub ahead : ℕ → ℕ → ℕ → ℕ
ahead k a b = (a + 2 ^ suc k - b) % 2 ^ suc k

pub mod_past : (x m n : ℕ) → x < n → (x + m * n) % n ≡ x
mod_past x m n h = add-mul-mod_self_right x m n ∙ mod-eq_of_lt h

module _ (k seq last : ℕ) (hs : seq < 2 ^ suc k) (hl : last < 2 ^ suc k) where
  pub ahead_front : last ≤ seq → ahead k seq last ≡ seq - last
  unfolding ahead
  ahead_front h = ap (λ x. x % 2 ^ suc k) same ∙ mod_past (seq - last) 1 (2 ^ suc k) (omega arith)
    where
      same : seq + 2 ^ suc k - last ≡ seq - last + 1 * 2 ^ suc k
      same = omega arith

  pub ahead_back : seq < last → ahead k seq last ≡ 2 ^ suc k - (last - seq)
  unfolding ahead
  ahead_back h = ap (λ x. x % 2 ^ suc k) same ∙ mod-eq_of_lt (omega arith)
    where
      same : seq + 2 ^ suc k - last ≡ 2 ^ suc k - (last - seq)
      same = omega arith

pub ahead_cases :
    (k a b : ℕ)
    → a < 2 ^ suc k
    → b < 2 ^ suc k
    → ((b ≤ a) × (ahead k a b ≡ a - b)) ⊎ ((a < b) × (ahead k a b ≡ 2 ^ suc k - (b - a)))
ahead_cases k a b ha hb = elim (dec_le b a) [
  | yes h ↦ inl (h, ahead_front k a b ha hb h)
  | no h ↦ inr (omega arith, ahead_back k a b ha hb (omega arith))
]
