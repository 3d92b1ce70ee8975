-- ===== src/Wire/Copy.antt =====
-- What copying into a buffer changes, and what it keeps.
use nrlsmf.Base.{
  ℕ, zero, suc, ◌+◌, ◌%◌, ◌<◌, ◌≤◌, ◌≡◌, ◌≢◌, refl, ap₂, ◌∙◌, List, [], ◌∷◌, arith, length, All,
}
use nrlsmf.Wire.{Packet, Laws, copy_in, copy_out}

module _ (P : Packet) (laws : Laws P) where
  open P use {State, buffer_length, get_length, set_length, get_uint8, set_uint8}

  -- Two packets have the same bytes from `lo` on and below `hi`.
  abbrev pub Agree : ℕ → ℕ → State → State → Type 0
  Agree lo hi s t = (j : ℕ) → lo ≤ j → j < hi → get_uint8 j s ≡ get_uint8 j t

  pub set-other :
      (i j v : ℕ) (s : State)
      → i < buffer_length s
      → j ≢ i
      → get_uint8 j (set_uint8 i v s) ≡ get_uint8 j s
  set-other i j v s h ne = ground (arith, laws.get_uint8-set i j v s h, ne)

  pub set-here :
      (i v : ℕ) (s : State) → i < buffer_length s → get_uint8 i (set_uint8 i v s) ≡ v % 256
  set-here i v s h = ground (arith, laws.get_uint8-set i i v s h)

  pub copy_in-buffer :
      (off : ℕ) (bs : List ℕ) (s : State) → buffer_length (copy_in P off bs s) ≡ buffer_length s
  unfolding copy_in
  copy_in-buffer off [] s = refl
  copy_in-buffer off (b ∷ bs) s =
      copy_in-buffer (off + 1) bs (set_uint8 off b s) ∙ laws.buffer_length-set off b s

  pub copy_in-length :
      (off : ℕ) (bs : List ℕ) (s : State) → get_length (copy_in P off bs s) ≡ get_length s
  unfolding copy_in
  copy_in-length off [] s = refl
  copy_in-length off (b ∷ bs) s =
      copy_in-length (off + 1) bs (set_uint8 off b s) ∙ laws.get_length-set off b s

  pub copy_in-before :
      (off : ℕ) (bs : List ℕ) (s : State) (j : ℕ)
      → off + length bs ≤ buffer_length s
      → j < off
      → get_uint8 j (copy_in P off bs s) ≡ get_uint8 j s
  unfolding copy_in
  copy_in-before off [] s j room h = refl
  copy_in-before off (b ∷ bs) s j room h =
      copy_in-before (off + 1) bs (set_uint8 off b s) j
        (omega (arith, room, laws.buffer_length-set off b s)) (omega (arith, h))
      ∙ set-other off j b s (omega (arith, room)) (λ e. omega (arith, h, e))

  pub copy_in-after :
      (off : ℕ) (bs : List ℕ) (s : State) (j : ℕ)
      → off + length bs ≤ buffer_length s
      → off + length bs ≤ j
      → get_uint8 j (copy_in P off bs s) ≡ get_uint8 j s
  unfolding copy_in
  copy_in-after off [] s j room h = refl
  copy_in-after off (b ∷ bs) s j room h =
      copy_in-after (off + 1) bs (set_uint8 off b s) j
        (omega (arith, room, laws.buffer_length-set off b s)) (omega (arith, h))
      ∙ set-other off j b s (omega (arith, room)) (λ e. omega (arith, h, e))

  -- What was copied in is copied out again.
  pub copy_out-copy_in :
      (off : ℕ) (bs : List ℕ) (s : State)
      → off + length bs ≤ buffer_length s
      → All (λ b. b < 256) bs
      → copy_out P off (length bs) (copy_in P off bs s) ≡ bs
  unfolding copy_in copy_out
  copy_out-copy_in off [] s room small = refl
  copy_out-copy_in off (b ∷ bs) s room small =
      let room' : off + 1 + length bs ≤ buffer_length (set_uint8 off b s) =
        omega (arith, room, laws.buffer_length-set off b s) in
      ap₂ ◌∷◌
        (copy_in-before (off + 1) bs (set_uint8 off b s) off room' (omega arith)
          ∙ set-here off b s (omega (arith, room))
          ∙ omega (arith, small.0))
        (copy_out-copy_in (off + 1) bs (set_uint8 off b s) room' small.1)

  -- Equal bytes are copied out alike.
  pub copy_out-Agree :
      (off n : ℕ) (s t : State) → Agree off (off + n) s t → copy_out P off n s ≡ copy_out P off n t
  unfolding copy_out
  copy_out-Agree off zero s t h = refl
  copy_out-Agree off (suc n) s t h =
      ap₂ ◌∷◌ (h off (omega arith) (omega arith))
        (copy_out-Agree (off + 1) n s t (λ j lo hi. h j (omega (arith, lo)) (omega (arith, hi))))
