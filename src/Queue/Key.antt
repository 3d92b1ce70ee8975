-- ===== src/Queue/Key.antt =====
-- SmfQueueBase::BuildKey, the key that the constructor stores and the one that
-- SmfQueueTableTemplate::FindQueue looks for (include/smfQueue.h, src/common/smfQueue.cpp).
use nrlsmf.Base.{
  ℕ, zero, suc, ◌*◌, ◌%◌, ◌≤◌, ◌≡◌, ◌≢◌, refl, sym, ap, ◌∙◌, Option, none, some, List, [], ◌∷◌,
  ◌++◌, arith, ◌==◌, if◌then◌else◌, length, length-append, take,
}

-- The raw bytes of an address; none for one that is not valid.
abbrev pub Address : Type 0
Address = Option (List ℕ)

abbrev pub raw : Address → List ℕ
raw none = []
raw (some bytes) = bytes

-- One byte, unless it is the value that stands for any.
abbrev pub byte_unless : ℕ → ℕ → List ℕ
byte_unless any b = if b == any then [] else (b % 256) ∷ []

-- `reserved` is ProtoPktIP::RESERVED.
module _ (reserved : ℕ) where
  -- BuildKey: the bytes, and their number of bits.
  unfoldable pub build_key : Address → Address → ℕ → ℕ → List ℕ × ℕ
  build_key src dst proto traffic_class =
      let key =
        raw dst ++ (raw src ++ (byte_unless reserved proto ++ byte_unless 255 traffic_class)) in
      (key, length key * 8)

  -- The constructor, which gives its `dst` for BuildKey's `src` and its `src` for the `dst`.
  unfoldable pub queue_key : Address → Address → ℕ → ℕ → List ℕ × ℕ
  queue_key dst src proto traffic_class = build_key dst src proto traffic_class

  -- The key that FindQueue looks for.
  unfoldable pub find_key : Address → Address → ℕ → ℕ → List ℕ × ℕ
  find_key dst src proto traffic_class = build_key src dst proto traffic_class

  rest : ℕ → ℕ → List ℕ
  rest proto traffic_class = byte_unless reserved proto ++ byte_unless 255 traffic_class

  -- A key of addresses of 16 bytes at most has at most 34 bytes, the size of `flow_id`, and 272
  -- bits.
  pub build_key-fits :
      (src dst : Address) (proto traffic_class : ℕ)
      → length (raw src) ≤ 16
      → length (raw dst) ≤ 16
      → (length (build_key src dst proto traffic_class).0 ≤ 34)
        × ((build_key src dst proto traffic_class).1 ≤ 272)
  unfolding build_key
  build_key-fits src dst proto traffic_class hs hd = (bytes, omega (arith, bytes))
    where
      one : (any b : ℕ) → length (byte_unless any b) ≤ 1
      one any b = ground arith

      bytes : length (build_key src dst proto traffic_class).0 ≤ 34
      bytes = omega (
        arith,
        length-append (raw dst)
            (raw src ++ (byte_unless reserved proto ++ byte_unless 255 traffic_class)),
        length-append (raw src) (byte_unless reserved proto ++ byte_unless 255 traffic_class),
        length-append (byte_unless reserved proto) (byte_unless 255 traffic_class),
        one reserved proto,
        one 255 traffic_class,
        hs,
        hd,
      )

take-append : (n : ℕ) (xs ys : List ℕ) → length xs ≡ n → take n (xs ++ ys) ≡ xs
take-append zero [] ys e = refl
take-append zero (x ∷ xs) ys e = absurd (omega (arith, e))
take-append (suc n) [] ys e = absurd (omega (arith, e))
take-append (suc n) (x ∷ xs) ys e =
    ap (λ (l : List ℕ). x ∷ l) (take-append n xs ys (omega (arith, e)))

-- A queue made for two different addresses of one length has another key than the one that
-- FindQueue looks for.
pub two_addresses-missed :
    (reserved : ℕ) (dst src : List ℕ) (proto traffic_class : ℕ)
    → length dst ≡ length src
    → dst ≢ src
    → queue_key reserved (some dst) (some src) proto traffic_class
      ≢ find_key reserved (some dst) (some src) proto traffic_class
unfolding queue_key find_key build_key
two_addresses-missed reserved dst src proto traffic_class e ne same = ne (
    sym (
      sym (take-append (length dst) src _ (sym e))
      ∙ ap (λ (k : List ℕ × ℕ). take (length dst) k.0) same
      ∙ take-append (length dst) dst _ refl))
