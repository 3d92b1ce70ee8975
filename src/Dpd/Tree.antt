-- ===== src/Dpd/Tree.antt =====
-- Protolib's ProtoTree, the prefix tree that finds an item by its key. The repository calls it and
-- does not hold it, so its operations are the parameter `KeyTree`, with what the code relies on.
use nrlsmf.Base.{
  ℕ, ◌+◌, ◌/◌, ◌%◌, ◌≡◌, ◌↔◌, Bool, true, Option, none, some, List, ◌==◌, if◌then◌else◌, take,
}

-- The bytes that hold `bits` bits, as SmfFlow::Init counts them.
unfoldable pub bytes_of : ℕ → ℕ
bytes_of bits = if bits % 8 == 0 then bits / 8 else bits / 8 + 1

pub record KeyTree : Type 1 where
  pub Key : Type 0
  -- The first `bits` bits of some bytes, as a key.
  pub key : List ℕ → ℕ → Key
  pub key_eq : Key → Key → Bool
  pub Tree : Type 0
  pub empty : Tree
  pub find : Key → Tree → Option ℕ
  -- Insert and Remove of the item at an address, by its key.
  pub insert : Key → ℕ → Tree → Tree
  pub remove : Key → ℕ → Tree → Tree

module _ (T : KeyTree) where
  open T use {Key, key, key_eq, Tree, empty, find, insert, remove}

  pub record TreeLaws : Type 0 where
    pub key_eq_iff : (a b : Key) → (key_eq a b ≡ true) ↔ (a ≡ b)
    pub key-take :
        (bytes : List ℕ) (bits : ℕ) → key (take (bytes_of bits) bytes) bits ≡ key bytes bits
    pub find-empty : (k : Key) → find k empty ≡ none
    pub find-insert :
        (j k : Key) (p : ℕ) (t : Tree)
        → find k t ≡ none
        → find j (insert k p t) ≡ (if key_eq j k then some p else find j t)
    pub find-remove :
        (j k : Key) (p : ℕ) (t : Tree)
        → find k t ≡ some p
        → find j (remove k p t) ≡ (if key_eq j k then none else find j t)
