-- ===== src/Wire/Nibbles.antt =====
-- Bytes as pairs of 4-bit fields.
use nrlsmf.Base.{
  ℕ, zero, suc, ◌+◌, ◌*◌, ◌/◌, ◌%◌, ◌<◌, ◌≡◌, refl, Bool, true, ◌&&◌, arith, ◌==◌, ==_iff, bit_and,
  bit_or,
}

abbrev all_below : ℕ → (ℕ → Bool) → Bool
all_below zero p = true
all_below (suc n) p = p n && all_below n p

all_below-at : (n : ℕ) (p : ℕ → Bool) (x : ℕ) → all_below n p ≡ true → x < n → p x ≡ true
all_below-at zero p x e h = absurd (omega arith)
all_below-at (suc n) p x e h = ground (arith, e, all_below-at n p x)

-- The low field, and the high one.
pub low_lem : (x : ℕ) → x < 256 → bit_and x 15 ≡ x % 16
low_lem x h = (==_iff _ _).0 (all_below-at 256 (λ x. bit_and x 15 == x % 16) x refl h)

pub high_lem : (x : ℕ) → x < 256 → bit_and x 240 ≡ x / 16 * 16
high_lem x h = (==_iff _ _).0 (all_below-at 256 (λ x. bit_and x 240 == x / 16 * 16) x refl h)

-- `field & 0xf0 | t`.
pub put_low_lem : (x t : ℕ) → x < 256 → t < 16 → bit_or (bit_and x 240) t ≡ x / 16 * 16 + t
put_low_lem x t hx ht = (==_iff _ _).0 (
    all_below-at 16 (λ t. bit_or (bit_and x 240) t == x / 16 * 16 + t) t
      (all_below-at 256 (λ x. all_below 16 (λ t. bit_or (bit_and x 240) t == x / 16 * 16 + t)) x
        refl hx)
      ht)

-- `field & 0x0f | (t << 4)`.
pub put_high_lem : (x t : ℕ) → x < 256 → t < 16 → bit_or (bit_and x 15) (t * 16) ≡ x % 16 + t * 16
put_high_lem x t hx ht = (==_iff _ _).0 (
    all_below-at 16 (λ t. bit_or (bit_and x 15) (t * 16) == x % 16 + t * 16) t
      (all_below-at 256 (λ x. all_below 16 (λ t. bit_or (bit_and x 15) (t * 16) == x % 16 + t * 16))
        x refl hx)
      ht)

-- `field | (flag << 4)` keeps the low field and the other flags, and sets the flag.
pub set_flag_low : (x f : ℕ) → x < 256 → f < 16 → bit_or x (f * 16) % 16 ≡ x % 16
set_flag_low x f hx hf = (==_iff _ _).0 (
    all_below-at 16 (λ f. bit_or x (f * 16) % 16 == x % 16) f
      (all_below-at 256 (λ x. all_below 16 (λ f. bit_or x (f * 16) % 16 == x % 16)) x refl hx) hf)

pub set_flag_high :
    (x f g : ℕ)
    → x < 256
    → f < 16
    → g < 16
    → bit_and g (bit_or x (f * 16) % 256 / 16) ≡ bit_or (bit_and g (x / 16)) (bit_and g f)
set_flag_high x f g hx hf hg = (==_iff _ _).0 (
    all_below-at 16 (Test x f) g
      (all_below-at 16 (λ f. all_below 16 (Test x f)) f
        (all_below-at 256 (λ x. all_below 16 (λ f. all_below 16 (Test x f))) x refl hx) hf)
      hg)
  where
    Test : ℕ → ℕ → ℕ → Bool
    Test x f g =
        bit_and g (bit_or x (f * 16) % 256 / 16) == bit_or (bit_and g (x / 16)) (bit_and g f)

pub set_flag_byte : (x f : ℕ) → x < 256 → f < 16 → bit_or x (f * 16) % 256 ≡ bit_or x (f * 16)
set_flag_byte x f hx hf = (==_iff _ _).0 (
    all_below-at 16 (λ f. bit_or x (f * 16) % 256 == bit_or x (f * 16)) f
      (all_below-at 256 (λ x. all_below 16 (λ f. bit_or x (f * 16) % 256 == bit_or x (f * 16))) x
        refl hx)
      hf)

-- The source flag is there once it is set.
pub source_flag_lem : (x : ℕ) → x < 256 → bit_and 1 (bit_or x 16 % 256 / 16) ≡ 1
source_flag_lem x h =
    (==_iff _ _).0 (all_below-at 256 (λ x. bit_and 1 (bit_or x 16 % 256 / 16) == 1) x refl h)
