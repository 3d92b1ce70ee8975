-- ===== src/Base/Bits.antt =====
-- The bit operations at a mask of low bits and at a single bit, as arithmetic, at every width.
use Prim.Native.Nat.{
  ℕ, zero, suc, ◌+◌, ◌-◌, ◌*◌, ◌/◌, ◌%◌, ◌^◌, ◌≤◌, ◌<◌, min, max, bit_and, bit_or, digits,
  bit_and-bitwise, bit_or-bitwise,
}
use mathlib.Core.Path.{◌≡◌, refl, sym, ap, ap₂, ◌∙◌}
use Prim.Native.Nat.add
use native.Mathlib.Nat.{pow-suc, one-le-pow}
use native.Mathlib.Omega.{arith}

-- The library reads a bit operation as `digits`, on fuel. A first operand without digits needs no
-- fuel, and any other number no more than itself.
module _ (last : ℕ → ℕ) (op : ℕ → ℕ → ℕ) where
  no_digits : (fuel y : ℕ) → digits last op fuel 0 y ≡ last y
  no_digits zero y = refl
  no_digits (suc fuel) y = refl

  enough_fuel : (x y s t : ℕ) → x ≤ t → x ≤ s → digits last op s x y ≡ digits last op t x y
  enough_fuel zero y s t ht hs = no_digits s y ∙ sym (no_digits t y)
  enough_fuel (suc x) y zero t ht hs = absurd (omega (arith, hs))
  enough_fuel (suc x) y (suc s) zero ht hs = absurd (omega (arith, ht))
  enough_fuel (suc x) y (suc s) (suc t) ht hs =
      let half = enough_fuel (suc x / 2) (y / 2) s t (omega (arith, ht)) (omega (arith, hs)) in
      omega (arith, half)

none_and : (y : ℕ) → bit_and 0 y ≡ 0
none_and y = bit_and-bitwise 0 y

none_or : (y : ℕ) → bit_or 0 y ≡ y
none_or y = bit_or-bitwise 0 y

-- One digit of each.
and_digit : (x y : ℕ) → bit_and x y ≡ min (x % 2) (y % 2) + 2 * bit_and (x / 2) (y / 2)
and_digit zero y = omega (arith, none_and (y / 2), none_and y)
and_digit (suc x) y =
    let half = suc x / 2 in
    let fuel = enough_fuel (λ r. 0) min half (y / 2) x half (omega arith) (omega arith) in
    omega (arith, fuel, bit_and-bitwise half (y / 2), bit_and-bitwise (suc x) y)

or_digit : (x y : ℕ) → bit_or x y ≡ max (x % 2) (y % 2) + 2 * bit_or (x / 2) (y / 2)
or_digit zero y = omega (arith, none_or (y / 2), none_or y)
or_digit (suc x) y =
    let half = suc x / 2 in
    let fuel = enough_fuel (λ r. r) max half (y / 2) x half (omega arith) (omega arith) in
    omega (arith, fuel, bit_or-bitwise half (y / 2), bit_or-bitwise (suc x) y)

and_none_up_to : (bound x : ℕ) → x ≤ bound → bit_and x 0 ≡ 0
and_none_up_to bound zero h = refl
and_none_up_to zero (suc x) h = absurd (omega (arith, h))
and_none_up_to (suc bound) (suc x) h =
    let half = and_none_up_to bound (suc x / 2) (omega (arith, h)) in
    omega (arith, half, and_digit (suc x) 0)

pub and_none : (x : ℕ) → bit_and x 0 ≡ 0
and_none x = and_none_up_to x x (omega arith)

-- `q` shifted past `k + 1` bits is twice `q` shifted past `k`.
shift_suc : (q k : ℕ) → q * 2 ^ suc k ≡ 2 * (q * 2 ^ k)
shift_suc q k = omega (arith, ap (λ (t : ℕ). q * t) (pow-suc 2 k))

and_low : (k q r : ℕ) → r < 2 ^ k → bit_and (q * 2 ^ k + r) (2 ^ k - 1) ≡ r
and_low zero q r h = rw (and_none (q * 1 + r)) (omega arith)
and_low (suc k) q r h = ground (
  arith,
  and_digit (q * 2 ^ suc k + r) (2 ^ suc k - 1),
  shift_suc q k,
  pow-suc 2 k,
  and_low k q (r / 2) (omega arith),
)

and_bit : (k q b r : ℕ) → b < 2 → r < 2 ^ k → bit_and ((2 * q + b) * 2 ^ k + r) (2 ^ k) ≡ b * 2 ^ k
and_bit zero q b r hb hr =
    ground (arith, and_digit ((2 * q + b) * 1 + r) 1, and_none (((2 * q + b) * 1 + r) / 2))
and_bit (suc k) q b r hb hr = ground (
  arith,
  and_digit ((2 * q + b) * 2 ^ suc k + r) (2 ^ suc k),
  shift_suc (2 * q + b) k,
  shift_suc b k,
  pow-suc 2 k,
  and_bit k q b (r / 2) hb (omega arith),
)

or_high : (k q h r : ℕ) → r < 2 ^ k → bit_or (q * 2 ^ k + r) (h * 2 ^ k) ≡ bit_or q h * 2 ^ k + r
or_high zero q h r hr =
    let e : q * 1 + r ≡ q = omega arith in
    let e' : h * 1 ≡ h = omega arith in rw (e, e') (omega arith)
or_high (suc k) q h r hr = ground (
  arith,
  or_digit (q * 2 ^ suc k + r) (h * 2 ^ suc k),
  shift_suc q k,
  shift_suc h k,
  shift_suc (bit_or q h) k,
  pow-suc 2 k,
  or_high k q h (r / 2) (omega arith),
)

or_ones : (j q : ℕ) → q < 2 ^ j → bit_or q (2 ^ j - 1) ≡ 2 ^ j - 1
or_ones zero q h = let e : q ≡ 0 = omega arith in rw e (none_or 0)
or_ones (suc j) q h =
    ground (arith, or_digit q (2 ^ suc j - 1), pow-suc 2 j, or_ones j (q / 2) (omega arith))

-- A mask of `k` low bits is the remainder by `2 ^ k`.
pub bit_and_mask : (k a : ℕ) → bit_and a (2 ^ k - 1) ≡ a % 2 ^ k
bit_and_mask k a = ground (arith, one-le-pow k 2, and_low k (a / 2 ^ k) (a % 2 ^ k))

-- A number is its quotient by `2 ^ (k + 1)`, shifted, and its remainder.
split_suc : (k d : ℕ) → d / 2 ^ suc k * 2 ^ suc k + d % 2 ^ suc k ≡ d
split_suc k d = omega arith

shift_double : (q k : ℕ) → 2 * q * 2 ^ k ≡ q * 2 ^ suc k
shift_double q k = omega (arith, shift_suc q k)

and_bit_at :
    (k d b r : ℕ)
    → b < 2
    → r < 2 ^ k
    → d % 2 ^ suc k ≡ b * 2 ^ k + r
    → bit_and d (2 ^ k) ≡ b * 2 ^ k
and_bit_at k d b r hb hr e = ap (λ x. bit_and x (2 ^ k)) same ∙ and_bit k (d / 2 ^ suc k) b r hb hr
  where
    same : d ≡ (2 * (d / 2 ^ suc k) + b) * 2 ^ k + r
    same = omega (arith, split_suc k d, shift_suc (d / 2 ^ suc k) k)

-- The bit of weight `2 ^ k`, the sign bit of a field of `k + 1` bits.
pub bit_and_sign_clear : (k d : ℕ) → d % 2 ^ suc k < 2 ^ k → bit_and d (2 ^ k) ≡ 0
bit_and_sign_clear k d h =
    omega (arith, and_bit_at k d 0 (d % 2 ^ suc k) (omega arith) h (omega arith))

pub bit_and_sign_set : (k d : ℕ) → 2 ^ k ≤ d % 2 ^ suc k → bit_and d (2 ^ k) ≡ 2 ^ k
bit_and_sign_set k d h =
    omega (arith, and_bit_at k d 1 (d % 2 ^ suc k - 2 ^ k) (omega arith) small (omega arith))
  where
    small : d % 2 ^ suc k - 2 ^ k < 2 ^ k
    small = omega (arith, pow-suc 2 k, one-le-pow k 2)

pub pow-add : (a b : ℕ) → 2 ^ (a + b) ≡ 2 ^ a * 2 ^ b
pow-add zero b = rw add.zero (omega arith)
pow-add (suc a) b =
    rw add.suc
      (omega (arith, pow-suc 2 (a + b), shift_suc (2 ^ b) a, ap (λ (t : ℕ). 2 * t) (pow-add a b)))

pub less_one : (m n : ℕ) → 1 ≤ m → (m - 1) * n + n ≡ m * n
less_one zero n h = absurd (omega arith)
less_one (suc m) n h = let e : suc m - 1 ≡ m = omega arith in rw e (omega arith)

pub pred_mul : (x y : ℕ) → (x - 1) * y ≡ x * y - y
pred_mul zero y = omega arith
pred_mul (suc x) y = let e : suc x - 1 ≡ x = omega arith in rw e (omega arith)

-- `|` with all the bits above the lowest `k`, in a word of `j + k` bits.
pub bit_or_high_ones :
    (j k d : ℕ)
    → d < 2 ^ j * 2 ^ k
    → bit_or d (2 ^ j * 2 ^ k - 2 ^ k) ≡ 2 ^ j * 2 ^ k - 2 ^ k + d % 2 ^ k
bit_or_high_ones j k d h = ap₂ bit_or same high ∙ or_high k q (2 ^ j - 1) (d % 2 ^ k) low ∙ last
  where
    q : ℕ
    q = d / 2 ^ k

    low : d % 2 ^ k < 2 ^ k
    low = omega (arith, one-le-pow k 2)

    same : d ≡ q * 2 ^ k + d % 2 ^ k
    same = omega arith

    high : 2 ^ j * 2 ^ k - 2 ^ k ≡ (2 ^ j - 1) * 2 ^ k
    high = sym (pred_mul (2 ^ j) (2 ^ k))

    small : q < 2 ^ j
    small = grind arith

    last : bit_or q (2 ^ j - 1) * 2 ^ k + d % 2 ^ k ≡ 2 ^ j * 2 ^ k - 2 ^ k + d % 2 ^ k
    last = rw (or_ones j q small, ← high)
