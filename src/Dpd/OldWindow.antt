-- ===== src/Dpd/OldWindow.antt =====
-- SmfSlidingWindow of include/smfWindow.h and src/common/smfWindow.cpp, the older form of the window
-- of SmfDpdWindow::Flow, and how the two differ.
use nrlsmf.Base.{
  ℕ, ◌+◌, ◌-◌, ◌^◌, ◌/◌, ◌%◌, ◌≡◌, ◌∙◌, refl, sym, ap, inl, inr, Bool, true, false, ◌&&◌, not,
  Option, none, some, arith, ltb, if◌then◌else◌, Option-cases, bit_and, lt_signed, neg32, word,
}
use nrlsmf.Base.Bits.{bit_and_mask}
use nrlsmf.Dpd.Mask.{SlidingMask}
use nrlsmf.Dpd.Window.{
  Window, over, serial_delta, valid_sizes, slide, look_back, compare_last, is_duplicate,
}

module _ (M : SlidingMask) where
  open M use {State, init, size, range_mask, range_sign, last_set, test, set, unset_bits, clear}

  -- SmfSlidingWindow::Init.
  unfoldable pub old_init : ℕ → ℕ → ℕ → Option (Window M)
  old_init num_size window_size past_max =
      if valid_sizes num_size window_size past_max
      then elim (init window_size ((word - 1) / 2 ^ (32 - num_size))) [
        | none ↦ none
        | some s ↦ some (record { bitmask = s; window_past_max = past_max })
      ]
      else none

  -- A number past the last one. The index for UnsetBits is not masked.
  unfoldable pub old_slide : ℕ → ℕ → ℕ → Window M → Window M
  old_slide seq last delta w =
      if lt_signed delta (size w.bitmask)
      then over M w
          (set seq (unset_bits ((last + word - size w.bitmask + 1) % word) delta w.bitmask))
      else over M w (set seq (clear w.bitmask))

  -- A number before the last one: a very old one is taken for a duplicate.
  unfoldable pub old_look_back : ℕ → ℕ → Window M → Bool × Window M
  old_look_back seq age w =
      if ltb age (size w.bitmask)
      then (if test w.bitmask seq then (true, w) else (false, over M w (set seq w.bitmask)))
      else if lt_signed age w.window_past_max
      then (true, w)
      else (false, over M w (set seq (clear w.bitmask)))

  unfoldable pub old_compare_last : ℕ → ℕ → Window M → Bool × Window M
  old_compare_last seq last w =
      let delta = serial_delta (range_sign w.bitmask) (range_mask w.bitmask) seq last in
      if lt_signed 0 delta
      then (false, old_slide seq last delta w)
      else if lt_signed delta 0
      then old_look_back seq (neg32 delta) w
      else (true, w)

  -- SmfSlidingWindow::IsDuplicate.
  unfoldable pub old_is_duplicate : ℕ → Window M → Bool × Window M
  old_is_duplicate seq w = elim (last_set w.bitmask) [
    | none ↦ (false, over M w (set seq w.bitmask))
    | some last ↦ old_compare_last seq last w
  ]

  -- The number is behind the window, and less than `window_past_max` behind the last one.
  unfoldable pub very_old_at : ℕ → Window M → Bool
  very_old_at delta w =
      not (lt_signed 0 delta)
      && (lt_signed delta 0
          && (not (ltb (neg32 delta) (size w.bitmask))
              && lt_signed (neg32 delta) w.window_past_max))

  unfoldable pub very_old : ℕ → Window M → Bool
  very_old seq w = elim (last_set w.bitmask) [
    | none ↦ false
    | some last ↦
        very_old_at (serial_delta (range_sign w.bitmask) (range_mask w.bitmask) seq last) w
  ]

  -- Over 32 bits the mask of the index changes nothing.
  slides_alike :
      (seq last delta : ℕ) (w : Window M)
      → range_mask w.bitmask ≡ 2 ^ 32 - 1
      → old_slide seq last delta w ≡ slide M seq last delta w
  unfolding old_slide slide
  slides_alike seq last delta w e =
      ap
        (λ (i : ℕ).
          if lt_signed delta (size w.bitmask)
          then over M w (set seq (unset_bits i delta w.bitmask))
          else over M w (set seq (clear w.bitmask)))
        (sym (
          ap (bit_and ((last + word - size w.bitmask + 1) % word)) e
          ∙ bit_and_mask 32 ((last + word - size w.bitmask + 1) % word)
          ∙ omega arith))

  compares_alike :
      (seq last : ℕ) (w : Window M)
      → range_mask w.bitmask ≡ 2 ^ 32 - 1
      → very_old_at (serial_delta (range_sign w.bitmask) (range_mask w.bitmask) seq last) w ≡ false
      → old_compare_last seq last w ≡ compare_last M seq last w
  unfolding old_compare_last compare_last very_old_at old_look_back look_back
  compares_alike seq last w e v = ground (
    arith,
    slides_alike seq last (serial_delta (range_sign w.bitmask) (range_mask w.bitmask) seq last) w e,
    v,
  )

  -- On a window over numbers of 32 bits, IsDuplicate of SmfSlidingWindow and of
  -- SmfDpdWindow::Flow return the same verdict and leave the same window, unless the number is
  -- very old: behind the window, and less than `window_past_max` behind the newest one.
  pub old_is_duplicate-agrees :
      (seq : ℕ) (w : Window M)
      → range_mask w.bitmask ≡ 2 ^ 32 - 1
      → very_old seq w ≡ false
      → old_is_duplicate seq w ≡ is_duplicate M seq w
  unfolding old_is_duplicate is_duplicate very_old
  old_is_duplicate-agrees seq w e v = elim (Option-cases (last_set w.bitmask)) [
    | inl n ↦ rw (n, old_is_duplicate, is_duplicate) refl
    | inr (last, n) ↦
        let u : very_old seq w
            ≡ very_old_at (serial_delta (range_sign w.bitmask) (range_mask w.bitmask) seq last) w =
          rw (n, very_old) refl in
        rw (n, old_is_duplicate, is_duplicate) (compares_alike seq last w e (sym u ∙ v))
  ]
