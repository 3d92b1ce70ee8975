-- ===== src/Base/Bytes.antt =====
-- Equality of strings of bytes, as memcmp tests it.
use Prim.Native.Nat.{ℕ}
use mathlib.Core.Path.{◌≡◌, refl, ap₂}
use mathlib.Core.Bool.{Bool, true, false, ◌&&◌}
use mathlib.Core.List.{List, [], ◌∷◌}
use native.Mathlib.Omega.{arith}
use nrlsmf.Base.Tests.{◌==◌}

abbrev pub same_bytes : List ℕ → List ℕ → Bool
same_bytes [] [] = true
same_bytes [] (b ∷ ys) = false
same_bytes (a ∷ xs) [] = false
same_bytes (a ∷ xs) (b ∷ ys) = a == b && same_bytes xs ys

pub same_bytes_self : (xs : List ℕ) → same_bytes xs xs ≡ true
same_bytes_self [] = refl
same_bytes_self (a ∷ xs) = ground (arith, same_bytes_self xs)

pub same_bytes-eq : (xs ys : List ℕ) → same_bytes xs ys ≡ true → xs ≡ ys
same_bytes-eq [] [] e = refl
same_bytes-eq [] (b ∷ ys) e = ground arith
same_bytes-eq (a ∷ xs) [] e = ground arith
same_bytes-eq (a ∷ xs) (b ∷ ys) e =
    ap₂ ◌∷◌ (ground (arith, e)) (same_bytes-eq xs ys (ground (arith, e)))
