-- ===== src/Dpd/Mask.antt =====
-- Protolib's ProtoSlidingMask, which the window code calls and the repository does not hold: its
-- operations as the parameter `SlidingMask`, and what the code relies on as `Laws`.
use nrlsmf.Base.{
  ℕ, suc, ◌-◌, ◌^◌, ◌<◌, ◌≤◌, ◌≡◌, Bool, true, false, not, ◌&&◌, ◌||◌, Option, none, some, ltb,
  ◌==◌,
}
use nrlsmf.Dpd.Ring.{ahead}

pub record SlidingMask : Type 1 where
  pub State : Type 0
  pub init : ℕ → ℕ → Option State
  pub size : State → ℕ
  pub range_mask : State → ℕ
  pub range_sign : State → ℕ
  pub last_set : State → Option ℕ
  pub test : State → ℕ → Bool
  pub set : ℕ → State → State
  pub unset_bits : ℕ → ℕ → State → State
  pub clear : State → State

module _ (M : SlidingMask) where
  open M use {State, init, size, range_mask, range_sign, last_set, test, set, unset_bits, clear}

  -- The mask has `n` bits over the positions below `2 ^ (k + 1)`.
  pub record Shape (k n : ℕ) (s : State) : Type 0 where
    pub size_is : size s ≡ n
    pub mask_is : range_mask s ≡ 2 ^ suc k - 1
    pub sign_is : range_sign s ≡ 2 ^ k

  -- Every set position is one of the last `n`, counted back from `top`.
  abbrev pub Fits : ℕ → ℕ → ℕ → State → Type 0
  Fits k n top s = (r : ℕ) → r < 2 ^ suc k → test s r ≡ true → ahead k top r < n

  pub record Laws : Type 0 where
    pub init_shape : (k n : ℕ) (s : State) → init n (2 ^ suc k - 1) ≡ some s → Shape k n s
    pub init_empty : (n m : ℕ) (s : State) → init n m ≡ some s → last_set s ≡ none
    pub init_clear : (n m r : ℕ) (s : State) → init n m ≡ some s → test s r ≡ false
    pub set_shape : (k n q : ℕ) (s : State) → Shape k n s → Shape k n (set q s)
    pub unset_shape : (k n i c : ℕ) (s : State) → Shape k n s → Shape k n (unset_bits i c s)
    pub clear_shape : (k n : ℕ) (s : State) → Shape k n s → Shape k n (clear s)
    pub clear_last : (s : State) → last_set (clear s) ≡ none
    -- Setting the first bit.
    pub set_first :
        (k n q r : ℕ) (s : State)
        → Shape k n s
        → 0 < n
        → q < 2 ^ suc k
        → r < 2 ^ suc k
        → last_set s ≡ none
        → (last_set (set q s) ≡ some q) × (test (set q s) r ≡ (r == q))
    -- Setting a bit past the last one, when all that is set fits a window that ends there.
    pub set_ahead :
        (k n q l r : ℕ) (s : State)
        → Shape k n s
        → q < 2 ^ suc k
        → r < 2 ^ suc k
        → last_set s ≡ some l
        → 0 < ahead k q l
        → ahead k q l < 2 ^ k
        → Fits k n q s
        → (last_set (set q s) ≡ some q) × (test (set q s) r ≡ (r == q || test s r))
    -- Setting a bit inside the window that ends at the last one.
    pub set_inside :
        (k n q l r : ℕ) (s : State)
        → Shape k n s
        → q < 2 ^ suc k
        → r < 2 ^ suc k
        → l < 2 ^ suc k
        → last_set s ≡ some l
        → n ≤ 2 ^ k
        → ahead k l q < n
        → Fits k n l s
        → (last_set (set q s) ≡ some l) × (test (set q s) r ≡ (r == q || test s r))
    -- Unsetting `c` bits from position `i` on, which spare the last one.
    pub unset_law :
        (k n i c l r : ℕ) (s : State)
        → Shape k n s
        → i < 2 ^ suc k
        → r < 2 ^ suc k
        → last_set s ≡ some l
        → c ≤ ahead k l i
        → (last_set (unset_bits i c s) ≡ some l)
          × (test (unset_bits i c s) r ≡ (test s r && not (ltb (ahead k r i) c)))
