-- ===== src/Dpd/Window/Memory.antt =====
-- What the window remembers: repeats are caught, and only repeats.
use native.Mathlib.Nat.{pow-suc}
use nrlsmf.Base.{
  ℕ, suc, ◌^◌, ◌≤◌, ◌<◌, ◌≡◌, sym, ◌∙◌, subst, ◌⊎◌, inl, inr, Bool, true, some, List, [], ◌∷◌,
  arith, ltb, if◌then◌else◌, Option-cases, All, contains,
}
use nrlsmf.Dpd.Ring.{ahead, ahead_cases}
use nrlsmf.Dpd.Mask.{SlidingMask, Laws}
use nrlsmf.Dpd.Window.Ideal.{Ideal, receive, against, IsWindow, Within}
use nrlsmf.Dpd.Window.Marks.{Models}
use nrlsmf.Dpd.Window.Refine.{is_duplicate-Refines}
use nrlsmf.Dpd.Window.Stream.{absorb, absorb_ideal, absorb_models, init_models, init_bounds, empty}
use nrlsmf.Dpd.Window.{Window, window_init, is_duplicate}

-- The newest number after `x` arrives.
abbrev pub newest : ℕ → ℕ → ℕ → ℕ
newest k x l = if ltb (ahead k x l) (2 ^ k) then x else l

module _ (k n : ℕ) (n0 : 0 < n) (hn : n ≤ 2 ^ k) where
  pub keeps :
      (x l q : ℕ) (v : Ideal)
      → x < 2 ^ suc k
      → q < 2 ^ suc k
      → v.top ≡ some l
      → Within k n (some l) v
      → v.seen q ≡ true
      → (ahead k x l < 2 ^ k) ⊎ (ahead k l x < n)
      → ahead k (newest k x l) q < n
      → (receive k n x v).1.seen q ≡ true
  unfolding receive against
  keeps x l q v hx hq e i t near still = ground (arith, ahead_cases k x l hx i.0)

  pub repeats :
      (q : ℕ) (v : Ideal)
      → q < 2 ^ suc k
      → IsWindow k n v
      → (receive k n q (receive k n q v).1).0 ≡ true
  unfolding receive against
  repeats q v hq i = elim (Option-cases v.top) [
    | inl e ↦ ground (arith, ahead_cases k q q hq hq)
    | inr (l, e) ↦ ground (arith, ahead_cases k q q hq hq)
  ]

  pub seen_is_duplicate :
      (q t : ℕ) (v : Ideal)
      → q < 2 ^ suc k
      → v.top ≡ some t
      → Within k n (some t) v
      → v.seen q ≡ true
      → (receive k n q v).0 ≡ true
  unfolding receive against
  seen_is_duplicate q t v hq e i s =
      ground (arith, pow-suc 2 k, i.1 q hq s, ahead_cases k q t hq i.0, ahead_cases k t q i.0 hq)

  pub top_after :
      (x l : ℕ) (v : Ideal)
      → v.top ≡ some l
      → (ahead k x l < 2 ^ k) ⊎ (ahead k l x < n)
      → x < 2 ^ suc k
      → l < 2 ^ suc k
      → (receive k n x v).1.top ≡ some (newest k x l)
  unfolding receive against
  top_after x l v e near hx hl = ground (arith, ahead_cases k x l hx hl)

-- All that the window knows of passes the test `p`.
abbrev Knows : (ℕ → Bool) → Ideal → Type 0
Knows p v = ((r : ℕ) → v.seen r ≡ true → p r ≡ true) × ((l : ℕ) → v.top ≡ some l → p l ≡ true)

receive-Knows :
    (k n q : ℕ) (p : ℕ → Bool) (v : Ideal) → p q ≡ true → Knows p v → Knows p (receive k n q v).1
unfolding receive against
receive-Knows k n q p v t h = (λ r s. ground (arith, h.0 r), λ l s. ground (arith, h.1 l))

absorb-Knows :
    (k n : ℕ) (p : ℕ → Bool) (qs : List ℕ) (v : Ideal)
    → All (λ q. p q ≡ true) qs
    → Knows p v
    → Knows p (absorb_ideal k n qs v)
unfolding absorb_ideal
absorb-Knows k n p [] v t h = h
absorb-Knows k n p (q ∷ qs) v t h = absorb-Knows k n p qs _ t.1 (receive-Knows k n q p v t.0 h)

All-contains :
    (qs rs : List ℕ)
    → ((r : ℕ) → contains r qs ≡ true → contains r rs ≡ true)
    → All (λ r. contains r rs ≡ true) qs
All-contains [] rs h = tt
All-contains (q ∷ qs) rs h = (h q (ground arith), All-contains qs rs (λ r t. h r (ground arith)))

known :
    (k n q : ℕ) (p : ℕ → Bool) (v : Ideal)
    → q < 2 ^ suc k
    → ((l : ℕ) → v.top ≡ some l → l < 2 ^ suc k)
    → Knows p v
    → (receive k n q v).0 ≡ true
    → p q ≡ true
known k n q p v hq hl h t = elim (Option-cases v.top) [
  | inl e ↦ unfold receive in ground arith
  | inr (l, e) ↦
      unfold receive against in ground (arith, h.0 q, h.1 l, hl l e, ahead_cases k q l hq (hl l e))
]

module _ (M : SlidingMask) (laws : Laws M) (k n past : ℕ) (w : Window M) (qs : List ℕ) (n0 : 0 < n)
    (hs : n < 2 ^ 31) (e : window_init M (suc k) n past ≡ some w)
    (hqs : All (λ q. q < 2 ^ suc k) qs) where
  hk : k ≤ 31
  hk = (init_bounds M k n past w e).0

  hn : n ≤ 2 ^ k
  hn = (init_bounds M k n past w e).1

  state : Models M laws k n n0 hk hn (absorb M qs w).bitmask (absorb_ideal k n qs empty)
  state =
      absorb_models M laws k n n0 hk hn hs qs w empty hqs
        (init_models M laws k n n0 hk hn hs past w e)

  -- After any stream `qs` of numbers of `k + 1` bits through a window that Init made, of `n`
  -- numbers with `0 < n < 2 ^ 31`, such a number is reported as a duplicate only if it stands
  -- in `qs`. The sliding mask keeps its laws.
  pub duplicate_was_received :
      (q : ℕ) → q < 2 ^ suc k → (is_duplicate M q (absorb M qs w)).0 ≡ true → contains q qs ≡ true
  duplicate_was_received q hq t =
      known k n q (λ r. contains r qs) (absorb_ideal k n qs empty) hq top_in
        (absorb-Knows k n (λ r. contains r qs) qs empty (All-contains qs qs (λ r s. s))
          (λ r s. cc, λ l s. cc))
        (sym (is_duplicate-Refines M laws k n n0 hk hn hs q _ _ hq state).0 ∙ t)
    where
      top_in : (l : ℕ) → (absorb_ideal k n qs empty).top ≡ some l → l < 2 ^ suc k
      top_in l s = (subst (λ o. Within k n o (absorb_ideal k n qs empty)) s state.window).0

  -- After any stream of numbers of `k + 1` bits through a window that Init made, of `n` numbers
  -- with `0 < n < 2 ^ 31`, such a number that is given twice in a row is a duplicate the second
  -- time. The sliding mask keeps its laws.
  pub repeat_is_duplicate :
      (q : ℕ) → q < 2 ^ suc k → (is_duplicate M q (is_duplicate M q (absorb M qs w)).1).0 ≡ true
  repeat_is_duplicate q hq =
      let r = is_duplicate-Refines M laws k n n0 hk hn hs q _ _ hq state in
      (is_duplicate-Refines M laws k n n0 hk hn hs q _ _ hq r.1).0
      ∙ repeats k n n0 hn q _ hq state.window

  -- After any stream of numbers of `k + 1` bits through a window that Init made, of `n` numbers
  -- with `0 < n < 2 ^ 31`, a number `q` that the ideal window after the stream has marked, with
  -- `l` the newest number, is still reported as a duplicate after a number `x` arrives, if `x`
  -- is newer than `l` or less than `n` behind it, and `q` is less than `n` behind the newer of
  -- `x` and `l`. The sliding mask keeps its laws.
  pub marked_is_duplicate :
      (q x l : ℕ)
      → q < 2 ^ suc k
      → x < 2 ^ suc k
      → (absorb_ideal k n qs empty).top ≡ some l
      → (absorb_ideal k n qs empty).seen q ≡ true
      → (ahead k x l < 2 ^ k) ⊎ (ahead k l x < n)
      → ahead k (newest k x l) q < n
      → (is_duplicate M q (is_duplicate M x (absorb M qs w)).1).0 ≡ true
  marked_is_duplicate q x l hq hx top mark near still =
      let v = absorb_ideal k n qs empty in
      let i : Within k n (some l) v = subst (λ o. Within k n o v) top state.window in
      let r = is_duplicate-Refines M laws k n n0 hk hn hs x _ _ hx state in
      let t = top_after k n n0 hn x l v top near hx i.0 in
      let j : Within k n (some (newest k x l)) (receive k n x v).1 =
        subst (λ o. Within k n o (receive k n x v).1) t r.1.window in
      (is_duplicate-Refines M laws k n n0 hk hn hs q _ _ hq r.1).0
      ∙ seen_is_duplicate k n n0 hn q _ _ hq t j
          (keeps k n n0 hn x l q v hx hq top i mark near still)
