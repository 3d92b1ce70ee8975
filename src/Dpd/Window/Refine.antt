-- ===== src/Dpd/Window/Refine.antt =====
-- SmfDpdWindow::Flow::IsDuplicate refines the ideal window.
use native.Mathlib.Nat.{pow-suc, one-le-pow}
use native.Mathlib.Decide.{dec_lt}
use nrlsmf.Base.{
  ℕ, suc, ◌+◌, ◌-◌, ◌^◌, ◌≤◌, ◌<◌, ◌≡◌, refl, ◌∙◌, subst, ◌⊎◌, inl, inr, Bool, true, false, some,
  arith, word, Bool-cases, Option-cases,
}
use nrlsmf.Dpd.Ring.{ahead, ahead_cases}
use nrlsmf.Dpd.Mask.{SlidingMask, Laws}
use nrlsmf.Dpd.Window.Region.{wide, serial_delta_near, serial_delta_far, serial_delta_half}
use nrlsmf.Dpd.Window.Ideal.{Ideal, only, newer, noted, Within, receive, against}
use nrlsmf.Dpd.Window.Marks.{
  Models, Holds, start_lem, first-Models, reset-Models, inside-Models, slide-Models, jump-Models,
}
use nrlsmf.Dpd.Window.{Window, serial_delta, slide, look_back, compare_last, is_duplicate, over}

-- The value of `delta`, region by region.
abbrev pub Delta : ℕ → ℕ → ℕ → Type 0
Delta k d delta =
    ((d ≡ 0) × (delta ≡ 0))
    ⊎ ((0 < d) × (d < 2 ^ k) × (delta ≡ d))
    ⊎ ((2 ^ k ≤ d) × (delta ≡ word - 2 ^ suc k + d))
    ⊎ ((d ≡ 2 ^ k) × (delta ≡ 2 ^ k))

Delta-cases :
    (k q l : ℕ)
    → k ≤ 31
    → q < 2 ^ suc k
    → l < 2 ^ suc k
    → Delta k (ahead k q l) (serial_delta (2 ^ k) (2 ^ suc k - 1) q l)
Delta-cases k q l hk hq hl = ground (
  arith,
  serial_delta_near k q l hk hq hl,
  serial_delta_far k q l hk hq hl,
  serial_delta_half k q l hk hq hl,
)

module _ (M : SlidingMask) (laws : Laws M) (k n : ℕ) (n0 : 0 < n) (hk : k ≤ 31) (hn : n ≤ 2 ^ k)
    (hs : n < 2 ^ 31) where
  open M use {State, last_set, test, set, unset_bits, clear, size, range_mask, range_sign}

  abbrev pub Refines : Bool × Window M → Bool × Ideal → Type 0
  Refines r i = (r.0 ≡ i.0) × Models M laws k n n0 hk hn r.1.bitmask i.1

  half-le : 2 ^ k ≤ 2 ^ 31
  half-le = omega (arith, wide k hk, pow-suc 2 k)

  module _ (q l : ℕ) (w : Window M) (v : Ideal) (hq : q < 2 ^ suc k)
      (m : Models M laws k n n0 hk hn w.bitmask v) (h : Holds M laws k n n0 hk hn l w.bitmask v)
      (e : v.top ≡ some l) where
    slide_near :
        ahead k q l < n
        → slide M q l (ahead k q l) w
          ≡ over M w (set q (unset_bits (ahead k l (n - 1)) (ahead k q l) w.bitmask))
    unfolding slide
    slide_near d = ground (
      arith,
      h.shape.size_is,
      start_lem k n l (range_mask w.bitmask) hk n0 hn h.l_in h.shape.mask_is,
    )

    slide_far :
        ahead k q l < 2 ^ k
        → n ≤ ahead k q l
        → slide M q l (ahead k q l) w ≡ over M w (set q (clear w.bitmask))
    unfolding slide
    slide_far near far = ground (arith, h.shape.size_is, half-le)

    slide-Refines :
        0 < ahead k q l
        → ahead k q l < 2 ^ k
        → Refines (false, slide M q l (ahead k q l) w) (false, newer k n q v)
    slide-Refines p near = elim (dec_lt (ahead k q l) n) [
      | yes d ↦ rw (slide_near d) (refl, slide-Models M laws k n n0 hk hn q l w.bitmask v hq h d p)
      | no d ↦
          rw (slide_far near (omega arith))
            (refl, jump-Models M laws k n n0 hk hn q l w.bitmask v hq h near (omega arith))
    ]

    -- A number half a ring ahead starts the window anew, whichever sign its distance gets.
    half_reset : ahead k q l ≡ 2 ^ k → against k n q l v ≡ (false, only q)
    unfolding against
    half_reset d = ground (
      arith,
      pow-suc 2 k,
      one-le-pow k 2,
      ahead_cases k q l hq h.l_in,
      ahead_cases k l q h.l_in hq,
    )

    old_reset :
        2 ^ k ≤ ahead k q l
        → n ≤ ahead k l q
        → Refines (look_back M q (ahead k l q) w) (against k n q l v)
    unfolding look_back against
    old_reset far old =
        let e1 : look_back M q (ahead k l q) w ≡ (false, over M w (set q (clear w.bitmask))) =
          ground (arith, h.shape.size_is) in
        let e2 : against k n q l v ≡ (false, only q) = ground (arith, one-le-pow k 2) in
        rw (e1, e2) (refl, reset-Models M laws k n n0 hk hn q w.bitmask hq h.shape)

    old_seen :
        2 ^ k ≤ ahead k q l
        → ahead k l q < n
        → v.seen q ≡ true
        → Refines (look_back M q (ahead k l q) w) (against k n q l v)
    unfolding look_back against
    old_seen far old t =
        let e1 : look_back M q (ahead k l q) w ≡ (true, w) =
          ground (arith, h.shape.size_is, h.seen_is q hq) in
        let e2 : against k n q l v ≡ (true, v) = ground (arith, one-le-pow k 2) in
        rw (e1, e2) (refl, m)

    old_new :
        2 ^ k ≤ ahead k q l
        → ahead k l q < n
        → v.seen q ≡ false
        → Refines (look_back M q (ahead k l q) w) (against k n q l v)
    unfolding look_back against
    old_new far old t =
        let e1 : look_back M q (ahead k l q) w ≡ (false, over M w (set q w.bitmask)) =
          ground (arith, h.shape.size_is, h.seen_is q hq) in
        let e2 : against k n q l v ≡ (false, noted k n q v) = ground (arith, one-le-pow k 2) in
        rw (e1, e2) (refl, inside-Models M laws k n n0 hk hn q l w.bitmask v hq h old e)

    look_back-Refines :
        2 ^ k ≤ ahead k q l → Refines (look_back M q (ahead k l q) w) (against k n q l v)
    look_back-Refines far = elim (dec_lt (ahead k l q) n) [
      | no old ↦ old_reset far (omega arith)
      | yes old ↦ elim (Bool-cases (v.seen q)) [
        | inl t ↦ old_seen far old t
        | inr t ↦ old_new far old t
      ]
    ]

    delta : ℕ
    delta = serial_delta (range_sign w.bitmask) (range_mask w.bitmask) q l

    delta_is : Delta k (ahead k q l) delta
    unfolding delta
    delta_is = rw (h.shape.sign_is, h.shape.mask_is) (Delta-cases k q l hk hq h.l_in)

    at_last : ahead k q l ≡ 0 → delta ≡ 0 → Refines (compare_last M q l w) (against k n q l v)
    unfolding delta compare_last against
    at_last z d =
        let e1 : compare_last M q l w ≡ (true, w) = ground arith in
        let e2 : against k n q l v ≡ (true, v) = ground arith in rw (e1, e2) (refl, m)

    past_last :
        0 < ahead k q l
        → ahead k q l < 2 ^ k
        → delta ≡ ahead k q l
        → Refines (compare_last M q l w) (against k n q l v)
    unfolding delta compare_last against
    past_last p near d =
        let e1 : compare_last M q l w ≡ (false, slide M q l (ahead k q l) w) =
          ground (arith, half-le) in
        let e2 : against k n q l v ≡ (false, newer k n q v) = ground arith in
        rw (e1, e2) (slide-Refines p near)

    before_last :
        2 ^ k ≤ ahead k q l
        → delta ≡ word - 2 ^ suc k + ahead k q l
        → Refines (compare_last M q l w) (against k n q l v)
    unfolding delta compare_last
    before_last far d =
        let e1 : compare_last M q l w ≡ look_back M q (ahead k l q) w = ground (
          arith,
          half-le,
          wide k hk,
          pow-suc 2 k,
          ahead_cases k q l hq h.l_in,
          ahead_cases k l q h.l_in hq,
        ) in
        rw e1 (look_back-Refines far)

    half_way :
        2 ^ k < 2 ^ 31
        → ahead k q l ≡ 2 ^ k
        → delta ≡ 2 ^ k
        → Refines (compare_last M q l w) (against k n q l v)
    unfolding delta compare_last slide
    half_way small half d =
        let e1 : compare_last M q l w ≡ (false, over M w (set q (clear w.bitmask))) =
          ground (arith, one-le-pow k 2, h.shape.size_is) in
        rw (e1, half_reset half) (refl, reset-Models M laws k n n0 hk hn q w.bitmask hq h.shape)

    compare_last-Refines : Refines (compare_last M q l w) (against k n q l v)
    compare_last-Refines = elim delta_is [
      | inl (z, d) ↦ at_last z d
      | inr (inl (p, near, d)) ↦ past_last p near d
      | inr (inr (inl (far, d))) ↦ before_last far d
      | inr (inr (inr (half, d))) ↦ elim (dec_lt (2 ^ k) (2 ^ 31)) [
        | yes small ↦ half_way small half d
        | no big ↦ before_last (omega arith) (omega (arith, half-le, pow-suc 2 k))
      ]
    ]

  -- Whatever arrives, the code's verdict is that of the ideal window, and its mask again holds the
  -- ideal window after the arrival.
  pub is_duplicate-Refines :
      (q : ℕ) (w : Window M) (v : Ideal)
      → q < 2 ^ suc k
      → Models M laws k n n0 hk hn w.bitmask v
      → Refines (is_duplicate M q w) (receive k n q v)
  is_duplicate-Refines q w v hq m = elim (Option-cases v.top) [
    | inl e ↦
        let e1 : is_duplicate M q w ≡ (false, over M w (set q w.bitmask)) =
          unfold is_duplicate in ground (arith, m.top_is) in
        let e2 : receive k n q v ≡ (false, only q) = unfold receive in ground arith in
        rw (e1, e2) (refl, first-Models M laws k n n0 hk hn q w.bitmask hq m.shape (m.top_is ∙ e))
    | inr (l, e) ↦
        let e1 : is_duplicate M q w ≡ compare_last M q l w =
          unfold is_duplicate in ground (arith, m.top_is) in
        let e2 : receive k n q v ≡ against k n q l v = unfold receive in ground arith in
        let i : Within k n (some l) v = subst (λ o. Within k n o v) e m.window in
        rw (e1, e2) (compare_last-Refines q l w v hq m (holds l i e) e)
  ]
    where
      holds :
          (l : ℕ) → Within k n (some l) v → v.top ≡ some l → Holds M laws k n n0 hk hn l w.bitmask v
      holds l i e = record {
        shape = m.shape;
        last_is = m.top_is ∙ e;
        seen_is = m.seen_is;
        l_in = i.0;
        within = i.1;
      }
