-- ===== src/Dpd/Window/Marks.antt =====
-- What each way of marking a number does to the window that the mask stands for.
use native.Mathlib.Nat.{pow-suc}
use nrlsmf.Base.{
  ℕ, suc, ◌+◌, ◌-◌, ◌%◌, ◌^◌, ◌≤◌, ◌<◌, ◌≡◌, sym, ap, ap₂, ◌∙◌, subst, true, not, ◌&&◌, ◌||◌, none,
  some, arith, ltb, ◌==◌, bit_and, word, sub32,
}
use nrlsmf.Base.Bits.{bit_and_mask}
use nrlsmf.Dpd.Window.Region.{wide, sub32-mod}
use nrlsmf.Dpd.Ring.{ahead, ahead_cases}
use nrlsmf.Dpd.Mask.{SlidingMask, Laws, Shape, Fits}
use nrlsmf.Dpd.Window.Ideal.{Ideal, only, newer, noted, Within, IsWindow}

-- Where UnsetBits starts: `n - 1` positions behind `l`.
pub start_lem :
    (k n l m : ℕ)
    → k ≤ 31
    → 0 < n
    → n ≤ 2 ^ k
    → l < 2 ^ suc k
    → m ≡ 2 ^ suc k - 1
    → bit_and ((l + word - n + 1) % word) m ≡ ahead k l (n - 1)
start_lem k n l m hk n0 hn hl e = ap₂ bit_and same e ∙ bit_and_mask (suc k) (sub32 l (n - 1)) ∙ turn
  where
    same : (l + word - n + 1) % word ≡ sub32 l (n - 1)
    same = ap (λ x. x % word) (omega (arith, wide k hk))

    turn : sub32 l (n - 1) % 2 ^ suc k ≡ ahead k l (n - 1)
    turn = sub32-mod k l (n - 1) hk hl (omega (arith, pow-suc 2 k))

pub ahead-lt : (k a b : ℕ) → a < 2 ^ suc k → b < 2 ^ suc k → ahead k a b < 2 ^ suc k
ahead-lt k a b ha hb = omega (arith, ahead_cases k a b ha hb)

start_behind :
    (k n l : ℕ) → 0 < n → n ≤ 2 ^ suc k → l < 2 ^ suc k → ahead k l (ahead k l (n - 1)) ≡ n - 1
start_behind k n l n0 hn hl = omega (
  arith,
  ahead_cases k l (n - 1) hl (omega arith),
  ahead_cases k l (ahead k l (n - 1)) hl (ahead-lt k l (n - 1) hl (omega arith)),
)

-- Sliding by `ahead k q l` forgets exactly what leaves the last `n`.
slide_forgets :
    (k n q l r : ℕ)
    → 0 < n
    → n ≤ 2 ^ k
    → q < 2 ^ suc k
    → l < 2 ^ suc k
    → r < 2 ^ suc k
    → ahead k q l < n
    → ahead k l r < n
    → not (ltb (ahead k r (ahead k l (n - 1))) (ahead k q l)) ≡ ltb (ahead k q r) n
slide_forgets k n q l r n0 hn hq hl hr d x = ground (arith, lt_iff)
  where
    big : n - 1 < 2 ^ suc k
    big = omega (arith, pow-suc 2 k)

    behind : ahead k r (ahead k l (n - 1)) ≡ n - 1 - ahead k l r
    behind = omega (
      arith,
      pow-suc 2 k,
      ahead_cases k l (n - 1) hl big,
      ahead_cases k l r hl hr,
      ahead_cases k r (ahead k l (n - 1)) hr (ahead-lt k l (n - 1) hl big),
    )

    sum : ahead k q r ≡ ahead k q l + ahead k l r
    sum = omega (
      arith,
      pow-suc 2 k,
      ahead_cases k q l hq hl,
      ahead_cases k l r hl hr,
      ahead_cases k q r hq hr,
    )

    lt_iff :
        (ahead k r (ahead k l (n - 1)) ≡ n - 1 - ahead k l r)
        × (ahead k q r ≡ ahead k q l + ahead k l r)
    lt_iff = (behind, sum)

module _ (M : SlidingMask) (laws : Laws M) (k n : ℕ) (n0 : 0 < n) (hk : k ≤ 31)
    (hn : n ≤ 2 ^ k) where
  open M use {State, last_set, test, set, unset_bits, clear}

  -- The mask holds the window `v`.
  pub record Models (s : State) (v : Ideal) : Type 0 where
    pub shape : Shape M k n s
    pub top_is : last_set s ≡ v.top
    pub seen_is : (r : ℕ) → r < 2 ^ suc k → test s r ≡ v.seen r
    pub window : IsWindow k n v

  same_in : (q r : ℕ) → q < 2 ^ suc k → (r == q) ≡ true → ahead k q r < n
  same_in q r hq e = ground (arith, ahead_cases k q r)

  only-IsWindow : (q : ℕ) → q < 2 ^ suc k → IsWindow k n (only q)
  only-IsWindow q hq = (hq, λ r hr e. same_in q r hq e)

  pub first-Models :
      (q : ℕ) (s : State)
      → q < 2 ^ suc k
      → Shape M k n s
      → last_set s ≡ none
      → Models (set q s) (only q)
  first-Models q s hq sh e = record {
    shape = laws.set_shape k n q s sh;
    top_is = (laws.set_first k n q q s sh n0 hq hq e).0;
    seen_is = λ r hr. (laws.set_first k n q r s sh n0 hq hr e).1;
    window = only-IsWindow q hq;
  }

  pub reset-Models :
      (q : ℕ) (s : State) → q < 2 ^ suc k → Shape M k n s → Models (set q (clear s)) (only q)
  reset-Models q s hq sh =
      first-Models q (clear s) hq (laws.clear_shape k n s sh) (laws.clear_last s)

  -- The facts about a window that has a newest number `l`.
  pub record Holds (l : ℕ) (s : State) (v : Ideal) : Type 0 where
    pub shape : Shape M k n s
    pub last_is : last_set s ≡ some l
    pub seen_is : (r : ℕ) → r < 2 ^ suc k → test s r ≡ v.seen r
    pub l_in : l < 2 ^ suc k
    pub within : (r : ℕ) → r < 2 ^ suc k → v.seen r ≡ true → ahead k l r < n

  module _ (q l : ℕ) (s : State) (v : Ideal) (hq : q < 2 ^ suc k) (h : Holds l s v) where
    fits : Fits M k n l s
    fits r hr e = h.within r hr (sym (h.seen_is r hr) ∙ e)

    pub inside-Models : ahead k l q < n → v.top ≡ some l → Models (set q s) (noted k n q v)
    inside-Models a e = record {
      shape = laws.set_shape k n q s h.shape;
      top_is = (laws.set_inside k n q l q s h.shape hq hq h.l_in h.last_is hn a fits).0 ∙ sym e;
      seen_is = λ r hr.
          (laws.set_inside k n q l r s h.shape hq hr h.l_in h.last_is hn a fits).1
          ∙ ap (λ b. r == q || b) (h.seen_is r hr);
      window =
          subst (λ o. Within k n o (noted k n q v)) (sym e)
            (h.l_in, λ r hr t. ground (arith, h.within r hr));
    }

    -- What UnsetBits leaves of the mask.
    abbrev pub slid : State
    slid = unset_bits (ahead k l (n - 1)) (ahead k q l) s

    module _ (d : ahead k q l < n) where
      big : n - 1 < 2 ^ suc k
      big = omega (arith, pow-suc 2 k)

      slid_is :
          (r : ℕ)
          → r < 2 ^ suc k
          → (last_set slid ≡ some l) × (test slid r ≡ (v.seen r && ltb (ahead k q r) n))
      slid_is r hr =
          let law =
            laws.unset_law k n (ahead k l (n - 1)) (ahead k q l) l r s h.shape
              (ahead-lt k l (n - 1) h.l_in big) hr h.last_is
              (rw (start_behind k n l n0 (omega (arith, pow-suc 2 k)) h.l_in) (omega arith)) in
          ground (
            arith,
            law,
            h.seen_is r hr,
            h.within r hr,
            slide_forgets k n q l r n0 hn hq h.l_in hr d,
          )

      slid-Fits : Fits M k n q slid
      slid-Fits r hr e = ground (arith, slid_is r hr)

      pub slide-Models : 0 < ahead k q l → Models (set q slid) (newer k n q v)
      slide-Models p = record {
        shape = laws.set_shape k n q slid shape;
        top_is = (put q hq).0;
        seen_is = λ r hr. (put r hr).1 ∙ ap (λ b. r == q || b) (slid_is r hr).1;
        window = (hq, λ r hr t. ground (arith, same_in q r hq));
      }
        where
          shape : Shape M k n slid
          shape = laws.unset_shape k n (ahead k l (n - 1)) (ahead k q l) s h.shape

          put :
              (r : ℕ)
              → r < 2 ^ suc k
              → (last_set (set q slid) ≡ some q) × (test (set q slid) r ≡ (r == q || test slid r))
          put r hr =
              laws.set_ahead k n q l r slid shape hq hr (slid_is q hq).0 p (omega arith) slid-Fits

    -- Past the window there is nothing to keep.
    pub jump-Models :
        ahead k q l < 2 ^ k → n ≤ ahead k q l → Models (set q (clear s)) (newer k n q v)
    jump-Models near far = record {
      shape = m.shape;
      top_is = m.top_is;
      seen_is = λ r hr. m.seen_is r hr ∙ gone r hr;
      window = (hq, λ r hr t. ground (arith, same_in q r hq));
    }
      where
        m : Models (set q (clear s)) (only q)
        m = reset-Models q s hq h.shape

        gone : (r : ℕ) → r < 2 ^ suc k → (r == q) ≡ (r == q || (v.seen r && ltb (ahead k q r) n))
        gone r hr = ground (
          arith,
          h.within r hr,
          pow-suc 2 k,
          ahead_cases k q l hq h.l_in,
          ahead_cases k l r h.l_in hr,
          ahead_cases k q r hq hr,
        )
