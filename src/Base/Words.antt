-- ===== src/Base/Words.antt =====
-- C's 32-bit words as numbers below `2 ^ 32`. An INT32 is its bit pattern; the tests below read the
-- pattern as the signed value that it stands for.
use Prim.Native.Nat.{ℕ, ◌+◌, ◌-◌, ◌%◌, ◌^◌}
use mathlib.Core.Bool.{Bool}
use nrlsmf.Base.Tests.{ltb}

abbrev pub word : ℕ
word = 2 ^ 32

-- UINT32 subtraction of words.
abbrev pub sub32 : ℕ → ℕ → ℕ
sub32 a b = (a + word - b) % word

-- `a < b` at INT32.
abbrev pub lt_signed : ℕ → ℕ → Bool
lt_signed a b = ltb ((a + 2 ^ 31) % word) ((b + 2 ^ 31) % word)

-- `-a` at INT32, in two's complement.
abbrev pub neg32 : ℕ → ℕ
neg32 a = (word - a) % word

-- `~a`.
abbrev pub not32 : ℕ → ℕ
not32 a = word - 1 - a
