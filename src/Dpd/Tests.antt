-- ===== src/Dpd/Tests.antt =====
-- Concrete runs of duplicate detection: each property of the window, the flow list and the sequence
-- manager at values where its conditions hold.
use nrlsmf.Base.{
  ℕ, ◌^◌, ◌<◌, ◌≡◌, refl, inl, true, false, none, some, List, [], ◌∷◌, arith, All, contains,
}
use nrlsmf.Dpd.Sample.{sample, sample-Laws}
use nrlsmf.Dpd.Ring.{ahead}
use nrlsmf.Dpd.Window.Ideal.{receive, against}
use nrlsmf.Dpd.Window.{
  Window, window_init, is_duplicate, compare_last, serial_delta, slide, look_back,
}
use nrlsmf.Dpd.OldWindow.{old_is_duplicate, very_old, very_old_at, old_is_duplicate-agrees}
use nrlsmf.Dpd.Window.Stream.{
  empty, absorb, absorb_ideal, verdicts, verdicts_ideal, verdicts-init_refine,
}
use nrlsmf.Dpd.Window.Memory.{
  duplicate_was_received, repeat_is_duplicate, marked_is_duplicate, newest,
}

-- A window of 16 numbers of 8 bits.
abbrev window_8 : Window sample
window_8 = record {
  bitmask = record { bits = []; last = none; width = 16; mask = 255 };
  window_past_max = 64;
}

made_8 : window_init sample 8 16 64 ≡ some window_8
unfolding window_init
made_8 = refl

abbrev stream : List ℕ
stream = 250 ∷ 254 ∷ 3 ∷ 254 ∷ 1 ∷ []

stream-small : All (λ q. q < 2 ^ 8) stream
stream-small = (omega arith, (omega arith, (omega arith, (omega arith, (omega arith, tt)))))

verdicts-init_refine_example : verdicts sample stream window_8 ≡ verdicts_ideal 7 16 stream empty
verdicts-init_refine_example =
    verdicts-init_refine sample sample-Laws 7 16 64 window_8 stream (omega arith) (omega arith)
      made_8 stream-small

stream-verdicts : verdicts sample stream window_8 ≡ false ∷ false ∷ false ∷ true ∷ false ∷ []
unfolding verdicts is_duplicate compare_last serial_delta slide look_back
stream-verdicts = refl

reports_254 : (is_duplicate sample 254 (absorb sample stream window_8)).0 ≡ true
unfolding absorb is_duplicate compare_last serial_delta slide look_back
reports_254 = refl

duplicate_was_received_example : contains 254 stream ≡ true
duplicate_was_received_example =
    duplicate_was_received sample sample-Laws 7 16 64 window_8 stream (omega arith) (omega arith)
      made_8 stream-small 254 (omega arith) reports_254

repeat_is_duplicate_example :
    (is_duplicate sample 2 (is_duplicate sample 2 (absorb sample stream window_8)).1).0 ≡ true
repeat_is_duplicate_example =
    repeat_is_duplicate sample sample-Laws 7 16 64 window_8 stream (omega arith) (omega arith)
      made_8 stream-small 2 (omega arith)

top_3 : (absorb_ideal 7 16 stream empty).top ≡ some 3
unfolding absorb_ideal receive against ahead
top_3 = refl

marks_254 : (absorb_ideal 7 16 stream empty).seen 254 ≡ true
unfolding absorb_ideal receive against ahead
marks_254 = refl

ahead_2 : ahead 7 5 3 < 2 ^ 7
unfolding ahead
ahead_2 = omega arith

ahead_7 : ahead 7 (newest 7 5 3) 254 < 16
unfolding ahead
ahead_7 = omega arith

marked_is_duplicate_example :
    (is_duplicate sample 254 (is_duplicate sample 5 (absorb sample stream window_8)).1).0 ≡ true
marked_is_duplicate_example =
    marked_is_duplicate sample sample-Laws 7 16 64 window_8 stream (omega arith) (omega arith)
      made_8 stream-small 254 5 3 (omega arith) (omega arith) top_3 marks_254 (inl ahead_2) ahead_7

-- A window of 32-bit numbers whose newest one is 100.
abbrev window_32 : Window sample
window_32 = record {
  bitmask = record { bits = 100 ∷ []; last = some 100; width = 16; mask = 4294967295 };
  window_past_max = 64;
}

not_very_old : very_old sample 105 window_32 ≡ false
unfolding very_old very_old_at serial_delta
not_very_old = refl

old_is_duplicate-agrees_example :
    old_is_duplicate sample 105 window_32 ≡ is_duplicate sample 105 window_32
old_is_duplicate-agrees_example = old_is_duplicate-agrees sample 105 window_32 refl not_very_old
