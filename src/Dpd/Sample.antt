-- ===== src/Dpd/Sample.antt =====
-- A sliding mask that meets the laws: the set positions as a list. The tests run on it.
use native.Mathlib.Nat.{one-le-pow, pow-suc}
use nrlsmf.Base.{
  ℕ, suc, ◌+◌, ◌-◌, ◌/◌, ◌%◌, ◌^◌, ◌≤◌, ◌<◌, ◌≡◌, refl, ap, false, not, ◌&&◌, ◌||◌, Option, none,
  some, List, [], ◌∷◌, arith, ltb, ◌==◌, if◌then◌else◌, contains,
}
use nrlsmf.Dpd.Ring.{ahead, ahead_cases}
use nrlsmf.Dpd.Mask.{SlidingMask, Laws, Shape}

pub record Bits : Type 0 where
  pub bits : List ℕ
  pub last : Option ℕ
  pub width : ℕ
  pub mask : ℕ

abbrev pub gap : ℕ → ℕ → ℕ → ℕ
gap m a b = (a + (m + 1) - b) % (m + 1)

abbrev pub drop_range : ℕ → ℕ → ℕ → List ℕ → List ℕ
drop_range m i c [] = []
drop_range m i c (r ∷ rs) =
    let rest = drop_range m i c rs in if ltb (gap m r i) c then rest else r ∷ rest

abbrev pub newer_last : ℕ → ℕ → Option ℕ → Option ℕ
newer_last m q none = some q
newer_last m q (some l) =
    if ltb 0 (gap m q l) && ltb (gap m q l) ((m + 1) / 2) then some q else some l

abbrev pub sample : SlidingMask
sample = record {
  State = Bits;
  init = λ n m. some (record { bits = []; last = none; width = n; mask = m });
  size = λ s. s.width;
  range_mask = λ s. s.mask;
  range_sign = λ s. (s.mask + 1) / 2;
  last_set = λ s. s.last;
  test = λ s r. elim s.last [ none ↦ false | some l ↦ contains r s.bits ];
  set = λ q s. elim s.last [
    | none ↦ record s { bits = q ∷ []; last = some q }
    | some l ↦ record s { bits = q ∷ s.bits; last = newer_last s.mask q (some l) }
  ];
  unset_bits = λ i c s. record s { bits = drop_range s.mask i c s.bits };
  clear = λ s. record s { bits = []; last = none };
}

contains-drop_range :
    (m i c r : ℕ) (rs : List ℕ)
    → contains r (drop_range m i c rs) ≡ (contains r rs && not (ltb (gap m r i) c))
contains-drop_range m i c r [] = refl
contains-drop_range m i c r (x ∷ rs) = ground (arith, contains-drop_range m i c r rs)

gap_lem : (k m a b : ℕ) → m ≡ 2 ^ suc k - 1 → gap m a b ≡ ahead k a b
unfolding ahead
gap_lem k m a b e = ap (λ t. (a + t - b) % t) turn
  where
    turn : m + 1 ≡ 2 ^ suc k
    turn = omega (arith, e, one-le-pow (suc k) 2)

half_lem : (k m : ℕ) → m ≡ 2 ^ suc k - 1 → (m + 1) / 2 ≡ 2 ^ k
half_lem k m e = omega (arith, e, pow-suc 2 k, one-le-pow k 2)

set_first_lem :
    (k n q r : ℕ) (s : Bits)
    → s.last ≡ none
    → (sample.last_set (sample.set q s) ≡ some q) × (sample.test (sample.set q s) r ≡ (r == q))
set_first_lem k n q r s e = ground arith

set_ahead_lem :
    (k n q l r : ℕ) (s : Bits)
    → Shape sample k n s
    → s.last ≡ some l
    → 0 < ahead k q l
    → ahead k q l < 2 ^ k
    → (sample.last_set (sample.set q s) ≡ some q)
      × (sample.test (sample.set q s) r ≡ (r == q || sample.test s r))
set_ahead_lem k n q l r s sh e p near =
    ground (arith, gap_lem k s.mask q l sh.mask_is, half_lem k s.mask sh.mask_is)

set_inside_lem :
    (k n q l r : ℕ) (s : Bits)
    → Shape sample k n s
    → q < 2 ^ suc k
    → l < 2 ^ suc k
    → s.last ≡ some l
    → n ≤ 2 ^ k
    → ahead k l q < n
    → (sample.last_set (sample.set q s) ≡ some l)
      × (sample.test (sample.set q s) r ≡ (r == q || sample.test s r))
set_inside_lem k n q l r s sh hq hl e hn p = ground (
  arith,
  gap_lem k s.mask q l sh.mask_is,
  half_lem k s.mask sh.mask_is,
  pow-suc 2 k,
  ahead_cases k q l hq hl,
  ahead_cases k l q hl hq,
)

unset_lem :
    (k n i c l r : ℕ) (s : Bits)
    → Shape sample k n s
    → s.last ≡ some l
    → (sample.last_set (sample.unset_bits i c s) ≡ some l)
      × (sample.test (sample.unset_bits i c s) r ≡ (sample.test s r && not (ltb (ahead k r i) c)))
unset_lem k n i c l r s sh e =
    ground (arith, gap_lem k s.mask r i sh.mask_is, contains-drop_range s.mask i c r s.bits)

pub sample-Laws : Laws sample
sample-Laws = record {
  init_shape = λ k n s e. record {
    size_is = ground arith;
    mask_is = ground arith;
    sign_is = ground (arith, half_lem k (2 ^ suc k - 1) refl);
  };
  init_empty = λ n m s e. ground arith;
  init_clear = λ n m r s e. ground arith;
  set_shape = λ k n q s h. record {
    size_is = ground (arith, h.size_is);
    mask_is = ground (arith, h.mask_is);
    sign_is = ground (arith, h.sign_is);
  };
  unset_shape =
      λ k n i c s h. record { size_is = h.size_is; mask_is = h.mask_is; sign_is = h.sign_is };
  clear_shape = λ k n s h. record { size_is = h.size_is; mask_is = h.mask_is; sign_is = h.sign_is };
  clear_last = λ s. refl;
  set_first = λ k n q r s h n0 hq hr e. set_first_lem k n q r s e;
  set_ahead = λ k n q l r s h hq hr e p near f. set_ahead_lem k n q l r s h e p near;
  set_inside = λ k n q l r s h hq hr hl e hn p f. set_inside_lem k n q l r s h hq hl e hn p;
  unset_law = λ k n i c l r s h hi hr e hc. unset_lem k n i c l r s h e;
}
