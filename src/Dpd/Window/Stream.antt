-- ===== src/Dpd/Window/Stream.antt =====
-- A whole stream of sequence numbers through SmfDpdWindow::Flow, from Init on.
use native.Mathlib.Nat.{one-le-pow, add-mul-div_right, div-eq_of_lt}
use nrlsmf.Base.{
  ℕ, suc, ◌+◌, ◌-◌, ◌*◌, ◌/◌, ◌^◌, ◌≤◌, ◌<◌, ◌≡◌, refl, sym, ap, ap₂, ◌∙◌, subst, Bool, true, false,
  none, some, List, [], ◌∷◌, arith, word, All,
}
use nrlsmf.Base.Bits.{pow-add, less_one}
use nrlsmf.Dpd.Mask.{SlidingMask, Laws}
use nrlsmf.Dpd.Window.Ideal.{Ideal, receive}
use nrlsmf.Dpd.Window.Marks.{Models}
use nrlsmf.Dpd.Window.Refine.{is_duplicate-Refines}
use nrlsmf.Dpd.Window.{Window, window_init, valid_sizes, is_duplicate}

abbrev pub empty : Ideal
empty = record { top = none; seen = λ r. false }

module _ (k n : ℕ) where
  unfoldable pub absorb_ideal : List ℕ → Ideal → Ideal
  absorb_ideal [] v = v
  absorb_ideal (q ∷ qs) v = absorb_ideal qs (receive k n q v).1

  unfoldable pub verdicts_ideal : List ℕ → Ideal → List Bool
  verdicts_ideal [] v = []
  verdicts_ideal (q ∷ qs) v = (receive k n q v).0 ∷ verdicts_ideal qs (receive k n q v).1

module _ (M : SlidingMask) where
  -- The window after a stream of numbers, and the verdict on each.
  unfoldable pub absorb : List ℕ → Window M → Window M
  absorb [] w = w
  absorb (q ∷ qs) w = absorb qs (is_duplicate M q w).1

  unfoldable pub verdicts : List ℕ → Window M → List Bool
  verdicts [] w = []
  verdicts (q ∷ qs) w = (is_duplicate M q w).0 ∷ verdicts qs (is_duplicate M q w).1

-- The sizes that Init lets through.
record Sizes (num size past : ℕ) : Type 0 where
  low : 8 ≤ num
  high : num ≤ 32
  half : size ≤ 2 ^ (num - 1)

valid_sizes-Sizes : (num size past : ℕ) → valid_sizes num size past ≡ true → Sizes num size past
unfolding valid_sizes
valid_sizes-Sizes num size past h = ground arith

pub range_mask_lem : (num : ℕ) → 1 ≤ num → num ≤ 32 → (word - 1) / 2 ^ (32 - num) ≡ 2 ^ num - 1
range_mask_lem num lo hi = ap (λ x. x / 2 ^ (32 - num)) split ∙ div
  where
    whole : 2 ^ (32 - num) * 2 ^ num ≡ word
    whole = sym (pow-add (32 - num) num) ∙ ap (λ (t : ℕ). 2 ^ t) {y = 32} (omega arith)

    split : word - 1 ≡ 2 ^ (32 - num) - 1 + (2 ^ num - 1) * 2 ^ (32 - num)
    split = omega (
      arith,
      whole,
      less_one (2 ^ num) (2 ^ (32 - num)) (one-le-pow num 2 (omega arith)),
      one-le-pow (32 - num) 2,
    )

    div : (2 ^ (32 - num) - 1 + (2 ^ num - 1) * 2 ^ (32 - num)) / 2 ^ (32 - num) ≡ 2 ^ num - 1
    div = omega (
      arith,
      add-mul-div_right (2 ^ (32 - num) - 1) (2 ^ num - 1) {z = 2 ^ (32 - num)}
          (one-le-pow (32 - num) 2 (omega arith)),
      div-eq_of_lt {n = 2 ^ (32 - num) - 1} {m = 2 ^ (32 - num)}
          (omega (arith, one-le-pow (32 - num) 2)),
    )

module _ (M : SlidingMask) (laws : Laws M) (k n : ℕ) (n0 : 0 < n) (hk : k ≤ 31) (hn : n ≤ 2 ^ k)
    (hs : n < 2 ^ 31) where
  abbrev pub Models' : Window M → Ideal → Type 0
  Models' w v = Models M laws k n n0 hk hn w.bitmask v

  pub absorb_models :
      (qs : List ℕ) (w : Window M) (v : Ideal)
      → All (λ q. q < 2 ^ suc k) qs
      → Models' w v
      → Models' (absorb M qs w) (absorb_ideal k n qs v)
  unfolding absorb absorb_ideal
  absorb_models [] w v hq m = m
  absorb_models (q ∷ qs) w v hq m =
      absorb_models qs _ _ hq.1 (is_duplicate-Refines M laws k n n0 hk hn hs q w v hq.0 m).1

  verdicts_refine :
      (qs : List ℕ) (w : Window M) (v : Ideal)
      → All (λ q. q < 2 ^ suc k) qs
      → Models' w v
      → verdicts M qs w ≡ verdicts_ideal k n qs v
  unfolding verdicts verdicts_ideal
  verdicts_refine [] w v hq m = refl
  verdicts_refine (q ∷ qs) w v hq m =
      let r = is_duplicate-Refines M laws k n n0 hk hn hs q w v hq.0 m in
      ap₂ ◌∷◌ r.0 (verdicts_refine qs _ _ hq.1 r.1)

  init_inv :
      (past : ℕ) (w : Window M)
      → window_init M (suc k) n past ≡ some w
      → M.init n (2 ^ suc k - 1) ≡ some w.bitmask
  unfolding window_init
  init_inv past w e =
      let ok : valid_sizes (suc k) n past ≡ true = ground arith in
      let s : Sizes (suc k) n past = valid_sizes-Sizes (suc k) n past ok in
      let m : (word - 1) / 2 ^ (32 - suc k) ≡ 2 ^ suc k - 1 =
        range_mask_lem (suc k) (omega arith) s.high in
      ground (arith, ok, m)

  pub init_models :
      (past : ℕ) (w : Window M) → window_init M (suc k) n past ≡ some w → Models' w empty
  init_models past w e =
      let i = init_inv past w e in
      record {
        shape = laws.init_shape k n w.bitmask i;
        top_is = laws.init_empty n (2 ^ suc k - 1) w.bitmask i;
        seen_is = λ r hr. laws.init_clear n (2 ^ suc k - 1) r w.bitmask i;
        window = tt;
      }

-- What Init accepts is in bounds.
pub init_bounds :
    (M : SlidingMask) (k n past : ℕ) (w : Window M)
    → window_init M (suc k) n past ≡ some w
    → (k ≤ 31) × (n ≤ 2 ^ k)
unfolding window_init
init_bounds M k n past w e =
    let ok : valid_sizes (suc k) n past ≡ true = ground arith in
    let s : Sizes (suc k) n past = valid_sizes-Sizes (suc k) n past ok in
    let p : suc k - 1 ≡ k = omega arith in (omega (arith, s.high), subst (λ j. n ≤ 2 ^ j) p s.half)

-- From a window that Init made for numbers of `k + 1` bits and a window of `n` numbers, with `0
-- < n < 2 ^ 31`, the verdicts on any stream of such numbers are those of the ideal window,
-- which has the newest number and the set of the last `n` numbers received. The sliding mask
-- keeps its laws.
pub verdicts-init_refine :
    (M : SlidingMask) (laws : Laws M) (k n past : ℕ) (w : Window M) (qs : List ℕ)
    → 0 < n
    → n < 2 ^ 31
    → window_init M (suc k) n past ≡ some w
    → All (λ q. q < 2 ^ suc k) qs
    → verdicts M qs w ≡ verdicts_ideal k n qs empty
verdicts-init_refine M laws k n past w qs n0 hs e hq =
    let b = init_bounds M k n past w e in
    verdicts_refine M laws k n n0 b.0 b.1 hs qs w empty hq
      (init_models M laws k n n0 b.0 b.1 hs past w e)
