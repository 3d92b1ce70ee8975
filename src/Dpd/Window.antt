-- ===== src/Dpd/Window.antt =====
-- SmfDpdWindow::Flow of src/common/smfDpd.cpp, the sliding window over the sequence numbers of one
-- flow, and SmfSlidingWindow of src/common/smfWindow.cpp, its older form.
pub mod Region
pub mod Ideal
pub mod Marks
pub mod Refine
pub mod Stream
pub mod Memory
pub mod Arc
use nrlsmf.Base.{
  ℕ, ◌+◌, ◌-◌, ◌/◌, ◌%◌, ◌^◌, Bool, true, false, not, ◌||◌, ◌&&◌, Option, none, some, ltb, ◌==◌,
  if◌then◌else◌, bit_and, bit_or, sub32, lt_signed, neg32, not32, word,
}
use nrlsmf.Dpd.Mask.{SlidingMask}

-- `delta` of IsDuplicate: the UINT32 difference, with its sign bit taken from `rangeSign`.
unfoldable pub serial_delta : ℕ → ℕ → ℕ → ℕ → ℕ
serial_delta range_sign range_mask seq last =
    let delta = sub32 seq last in
    if bit_and delta range_sign == 0
    then bit_and delta range_mask
    else if not (delta == range_sign) || ltb seq last
    then bit_or delta (not32 range_mask)
    else delta

-- The checks of Init on the sizes.
unfoldable pub valid_sizes : ℕ → ℕ → ℕ → Bool
valid_sizes num_size window_size past_max =
    if ltb num_size 8 || ltb 32 num_size
    then false
    else if ltb (2 ^ (num_size - 1)) window_size
    then false
    else if ltb past_max window_size || ltb (2 ^ (num_size - 1)) past_max
    then false
    else true

module _ (M : SlidingMask) where
  open M use {State, init, size, range_mask, range_sign, last_set, test, set, unset_bits, clear}

  pub record Window : Type 0 where
    pub bitmask : State
    pub window_past_max : ℕ

  abbrev pub over : Window → State → Window
  over w s = record w { bitmask = s }

  unfoldable pub window_init : ℕ → ℕ → ℕ → Option Window
  unfolding valid_sizes
  window_init num_size window_size past_max =
      if valid_sizes num_size window_size past_max
      then elim (init window_size ((word - 1) / 2 ^ (32 - num_size))) [
        | none ↦ none
        | some s ↦ some (record { bitmask = s; window_past_max = past_max })
      ]
      else none

  -- A number past the last one: slide the window, or start it anew.
  unfoldable pub slide : ℕ → ℕ → ℕ → Window → Window
  slide seq last delta w =
      if lt_signed delta (size w.bitmask)
      then over w (
          set seq (
            unset_bits (bit_and ((last + word - size w.bitmask + 1) % word) (range_mask w.bitmask))
              delta w.bitmask))
      else over w (set seq (clear w.bitmask))

  -- A number before the last one, by `age` positions.
  unfoldable pub look_back : ℕ → ℕ → Window → Bool × Window
  look_back seq age w =
      if ltb age (size w.bitmask)
      then (if test w.bitmask seq then (true, w) else (false, over w (set seq w.bitmask)))
      else if lt_signed age w.window_past_max
      then (false, over w (set seq (clear w.bitmask)))
      else (false, over w (set seq (clear w.bitmask)))

  unfoldable pub compare_last : ℕ → ℕ → Window → Bool × Window
  compare_last seq last w =
      let delta = serial_delta (range_sign w.bitmask) (range_mask w.bitmask) seq last in
      if lt_signed 0 delta
      then (false, slide seq last delta w)
      else if lt_signed delta 0
      then look_back seq (neg32 delta) w
      else (true, w)

  -- SmfDpdWindow::Flow::IsDuplicate: the verdict, and the window after it.
  unfoldable pub is_duplicate : ℕ → Window → Bool × Window
  is_duplicate seq w = elim (last_set w.bitmask) [
    | none ↦ (false, over w (set seq w.bitmask))
    | some last ↦ compare_last seq last w
  ]
