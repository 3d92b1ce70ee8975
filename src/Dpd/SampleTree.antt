-- ===== src/Dpd/SampleTree.antt =====
-- A key tree that meets the laws: a function from keys. The tests run on it.
use nrlsmf.Base.{
  ℕ, zero, suc, ◌≡◌, refl, ap, ap₂, subst, ◌↔◌, true, ◌&&◌, Option, none, some, List, [], ◌∷◌,
  arith, ◌==◌, if◌then◌else◌, take, same_bytes, same_bytes_self, same_bytes-eq,
}
use nrlsmf.Dpd.Tree.{KeyTree, TreeLaws, bytes_of}

abbrev pub sample_tree : KeyTree
sample_tree = record {
  Key = List ℕ × ℕ;
  key = λ bytes bits. (take (bytes_of bits) bytes, bits);
  key_eq = λ j k. same_bytes j.0 k.0 && j.1 == k.1;
  Tree = (List ℕ × ℕ) → Option ℕ;
  empty = λ k. none;
  find = λ k t. t k;
  insert = λ k p t j. if same_bytes j.0 k.0 && j.1 == k.1 then some p else t j;
  remove = λ k p t j. if same_bytes j.0 k.0 && j.1 == k.1 then none else t j;
}

pub take_twice : (n : ℕ) (xs : List ℕ) → take n (take n xs) ≡ take n xs
take_twice zero xs = refl
take_twice (suc n) [] = refl
take_twice (suc n) (x ∷ xs) = ap (λ (l : List ℕ). x ∷ l) (take_twice n xs)

pub same_key_iff : (j k : List ℕ × ℕ) → ((same_bytes j.0 k.0 && j.1 == k.1) ≡ true) ↔ (j ≡ k)
same_key_iff j k = (to, from)
  where
    to : (same_bytes j.0 k.0 && j.1 == k.1) ≡ true → j ≡ k
    to e =
        ap₂ (λ (a : List ℕ) (b : ℕ). (a, b)) (same_bytes-eq j.0 k.0 (ground (arith, e)))
          (ground (arith, e))

    from : j ≡ k → (same_bytes j.0 k.0 && j.1 == k.1) ≡ true
    from e =
        subst (λ (i : List ℕ × ℕ). (same_bytes j.0 i.0 && j.1 == i.1) ≡ true) e
          (ground (arith, same_bytes_self j.0))

pub sample_tree-Laws : TreeLaws sample_tree
sample_tree-Laws = record {
  key_eq_iff = same_key_iff;
  key-take = λ bytes bits. ap (λ (l : List ℕ). (l, bits)) (take_twice (bytes_of bits) bytes);
  find-empty = λ k. refl;
  find-insert = λ j k p t e. refl;
  find-remove = λ j k p t e. refl;
}
