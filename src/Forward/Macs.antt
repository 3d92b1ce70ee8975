-- ===== src/Forward/Macs.antt =====
-- IsSelector and IsNeighbor of src/common/smf.cpp: whether a MAC address is in a list of addresses
-- that stand one behind the other in an array.
use mathlib.Core.List.{append_assoc}
use nrlsmf.Base.{
  ℕ, zero, suc, ◌-◌, ◌≡◌, ◌<◌, ◌≤◌, refl, ap, Bool, true, false, ◌||◌, List, [], ◌∷◌, ◌++◌, arith,
  ◌==◌, if◌then◌else◌, length, take, drop, All, same_bytes, length-append, not,
}

-- The loop over the array, from `ptr`, with `left` bytes to the end of the list.
unfoldable pub listed_from : ℕ → List ℕ → ℕ → List ℕ → Bool
listed_from zero bytes left mac = false
listed_from (suc fuel) bytes left mac =
    let later = listed_from fuel (drop (length mac) bytes) (left - length mac) mac in
    if left == 0 then false else if same_bytes (take (length mac) bytes) mac then true else later

-- The list is the first `len` bytes of the array; each turn takes at least one of them.
unfoldable pub is_listed : List ℕ → ℕ → List ℕ → Bool
unfolding listed_from
is_listed array len mac = listed_from len array len mac

-- The addresses one behind the other.
abbrev pub joined : List (List ℕ) → List ℕ
joined [] = []
joined (m ∷ ms) = m ++ joined ms

abbrev pub one_of : List ℕ → List (List ℕ) → Bool
one_of mac [] = false
one_of mac (m ∷ ms) = same_bytes m mac || one_of mac ms

take-append : (xs ys : List ℕ) (n : ℕ) → length xs ≡ n → take n (xs ++ ys) ≡ xs
take-append [] ys zero e = refl
take-append [] ys (suc n) e = absurd (omega (arith, e))
take-append (x ∷ xs) ys zero e = absurd (omega (arith, e))
take-append (x ∷ xs) ys (suc n) e =
    ap (λ (l : List ℕ). x ∷ l) (take-append xs ys n (omega (arith, e)))

drop-append : (xs ys : List ℕ) (n : ℕ) → length xs ≡ n → drop n (xs ++ ys) ≡ ys
drop-append [] ys zero e = refl
drop-append [] ys (suc n) e = absurd (omega (arith, e))
drop-append (x ∷ xs) ys zero e = absurd (omega (arith, e))
drop-append (x ∷ xs) ys (suc n) e = drop-append xs ys n (omega (arith, e))

or_by : (a b : Bool) → (if a then true else b) ≡ (a || b)
or_by true b = refl
or_by false b = refl

listed_from-one_of :
    (fuel : ℕ) (mac : List ℕ) (ms : List (List ℕ)) (rest : List ℕ)
    → 0 < length mac
    → All (λ m. length m ≡ length mac) ms
    → length (joined ms) ≤ fuel
    → listed_from fuel (joined ms ++ rest) (length (joined ms)) mac ≡ one_of mac ms
unfolding listed_from
listed_from-one_of zero mac [] rest h a f = refl
listed_from-one_of (suc fuel) mac [] rest h a f = refl
listed_from-one_of zero mac (m ∷ ms) rest h a f =
    absurd (omega (arith, length-append m (joined ms), a.0))
listed_from-one_of (suc fuel) mac (m ∷ ms) rest h a f =
    let n = length mac in
    let tail = joined ms ++ rest in
    let shape : (m ++ joined ms) ++ rest ≡ m ++ tail = append_assoc m (joined ms) rest in
    let first : take n (m ++ tail) ≡ m = take-append m tail n a.0 in
    let others : drop n (m ++ tail) ≡ tail = drop-append m tail n a.0 in
    let left : length (m ++ joined ms) - n ≡ length (joined ms) =
      omega (arith, length-append m (joined ms), a.0) in
    let more : (length (m ++ joined ms) == 0) ≡ false =
      ground (arith, length-append m (joined ms), a.0) in
    let ih =
      listed_from-one_of fuel mac ms rest h a.1 (omega (arith, length-append m (joined ms), a.0)) in
    rw (shape, first, others, left, more, ih) (or_by (same_bytes m mac) (one_of mac ms))

-- Where an array starts with the bytes of addresses of one length one behind the other, the
-- search of IsSelector and IsNeighbor over those bytes finds an address of that length, of one
-- byte at least, if and only if it is one of them.
pub is_listed-one_of :
    (mac : List ℕ) (ms : List (List ℕ)) (rest : List ℕ)
    → 0 < length mac
    → All (λ m. length m ≡ length mac) ms
    → is_listed (joined ms ++ rest) (length (joined ms)) mac ≡ one_of mac ms
unfolding is_listed
is_listed-one_of mac ms rest h a =
    listed_from-one_of (length (joined ms)) mac ms rest h a (omega arith)

-- An address without bytes, such as an invalid one, is in every list that has any.
pub is_listed_empty : (array : List ℕ) (len : ℕ) → is_listed array len [] ≡ not (len == 0)
unfolding is_listed listed_from
is_listed_empty array zero = refl
is_listed_empty array (suc len) = ground arith
