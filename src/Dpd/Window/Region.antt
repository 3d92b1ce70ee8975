-- ===== src/Dpd/Window/Region.antt =====
-- Which region of the window a sequence number falls into.
use native.Mathlib.Nat.{pow-suc, one-le-pow, mod-eq_of_lt}
use native.Mathlib.Decide.{dec_le}
use nrlsmf.Base.{
  ℕ, suc, ◌+◌, ◌-◌, ◌*◌, ◌%◌, ◌^◌, ◌≤◌, ◌<◌, ◌≡◌, sym, ap, ◌∙◌, ◌⊎◌, arith, sub32, bit_or, not32,
  word,
}
use nrlsmf.Base.Bits.{
  bit_and_mask, bit_and_sign_clear, bit_and_sign_set, bit_or_high_ones, pow-add, less_one,
}
use nrlsmf.Dpd.Ring.{ahead, mod_past, ahead_front, ahead_back}
use nrlsmf.Dpd.Window.{serial_delta}

-- A word is a whole number of turns of the ring.
word_turns : (k : ℕ) → k ≤ 31 → 2 ^ (31 - k) * 2 ^ suc k ≡ word
word_turns k h = sym (pow-add (31 - k) (suc k)) ∙ ap (λ (t : ℕ). 2 ^ t) {y = 32} (omega arith)

pub wide : (k : ℕ) → k ≤ 31 → 2 ^ suc k ≤ word
wide k hk = grind (arith, word_turns k hk, one-le-pow (31 - k) 2)

module _ (k seq last : ℕ) (hk : k ≤ 31) (hs : seq < 2 ^ suc k) (hl : last < 2 ^ suc k) where
  turns : ℕ
  turns = 2 ^ (31 - k)

  sub32_front : last ≤ seq → sub32 seq last ≡ seq - last
  sub32_front h = omega (arith, wide k hk)

  sub32_back : seq < last → sub32 seq last ≡ (2 ^ suc k - (last - seq)) + (turns - 1) * 2 ^ suc k
  unfolding turns
  sub32_back h = omega (
    arith,
    wide k hk,
    word_turns k hk,
    less_one (2 ^ (31 - k)) (2 ^ suc k) (one-le-pow (31 - k) 2 (omega arith)),
  )

  -- The 32-bit difference and the distance on the ring agree on the low bits.
  pub sub32-mod : sub32 seq last % 2 ^ suc k ≡ ahead k seq last
  sub32-mod = elim (dec_le last seq) [
    | yes h ↦ rw (sub32_front h, ahead_front k seq last hs hl h) (mod-eq_of_lt (omega arith))
    | no h ↦
        rw (sub32_back (omega arith), ahead_back k seq last hs hl (omega arith))
          (mod_past _ (turns - 1) (2 ^ suc k) (omega arith))
  ]

  pub serial_delta_near :
      ahead k seq last < 2 ^ k → serial_delta (2 ^ k) (2 ^ suc k - 1) seq last ≡ ahead k seq last
  unfolding serial_delta
  serial_delta_near h =
      rw
        (
          bit_and_sign_clear k (sub32 seq last) (rw sub32-mod h),
          bit_and_mask (suc k) (sub32 seq last),
        )
        sub32-mod

  or_mask :
      bit_or (sub32 seq last) (not32 (2 ^ suc k - 1))
      ≡ word - 2 ^ suc k + sub32 seq last % 2 ^ suc k
  or_mask = ap (bit_or (sub32 seq last)) high ∙ high_ones ∙ back
    where
      high : not32 (2 ^ suc k - 1) ≡ 2 ^ (31 - k) * 2 ^ suc k - 2 ^ suc k
      high = omega (arith, word_turns k hk, one-le-pow (suc k) 2)

      high_ones :
          bit_or (sub32 seq last) (2 ^ (31 - k) * 2 ^ suc k - 2 ^ suc k)
          ≡ 2 ^ (31 - k) * 2 ^ suc k - 2 ^ suc k + sub32 seq last % 2 ^ suc k
      high_ones =
          bit_or_high_ones (31 - k) (suc k) (sub32 seq last) (omega (arith, word_turns k hk))

      back :
          2 ^ (31 - k) * 2 ^ suc k - 2 ^ suc k + sub32 seq last % 2 ^ suc k
          ≡ word - 2 ^ suc k + sub32 seq last % 2 ^ suc k
      back = omega (arith, word_turns k hk)

  sign_is_half : sub32 seq last ≡ 2 ^ k → ahead k seq last ≡ 2 ^ k
  sign_is_half e =
      sym sub32-mod
      ∙ ap (λ x. x % 2 ^ suc k) e
      ∙ mod-eq_of_lt (omega (arith, pow-suc 2 k, one-le-pow k 2))

  pub serial_delta_far :
      2 ^ k < ahead k seq last
      → serial_delta (2 ^ k) (2 ^ suc k - 1) seq last ≡ word - 2 ^ suc k + ahead k seq last
  unfolding serial_delta
  serial_delta_far h = ground (
    arith,
    bit_and_sign_set k (sub32 seq last) (rw sub32-mod (omega arith)),
    one-le-pow k 2,
    or_mask,
    sub32-mod,
    sign_is_half,
  )

  pub serial_delta_half :
      ahead k seq last ≡ 2 ^ k
      → (serial_delta (2 ^ k) (2 ^ suc k - 1) seq last ≡ word - 2 ^ suc k + ahead k seq last)
        ⊎ (serial_delta (2 ^ k) (2 ^ suc k - 1) seq last ≡ 2 ^ k)
  unfolding serial_delta
  serial_delta_half h = ground (
    arith,
    bit_and_sign_set k (sub32 seq last) (rw sub32-mod (omega arith)),
    one-le-pow k 2,
    or_mask,
    sub32-mod,
  )
