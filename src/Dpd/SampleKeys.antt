-- ===== src/Dpd/SampleKeys.antt =====
-- A key tree as a list of keys with their addresses, in which an address that is free can be found.
use nrlsmf.Base.{
  ℕ, ◌+◌, ◌<◌, ◌≡◌, refl, sym, ap, ◌∙◌, inl, inr, Bool, false, ◌&&◌, Option, none, some, List, [],
  ◌∷◌, arith, ltb, ◌==◌, if◌then◌else◌, take, same_bytes, Bool-cases,
}
use nrlsmf.Dpd.Tree.{KeyTree, TreeLaws, bytes_of}
use nrlsmf.Dpd.SampleTree.{take_twice, same_key_iff}

abbrev Name : Type 0
Name = List ℕ × ℕ

abbrev same_name : Name → Name → Bool
same_name j k = same_bytes j.0 k.0 && j.1 == k.1

abbrev look_up : Name → List (Name × ℕ) → Option ℕ
look_up k [] = none
look_up k (e ∷ es) = if same_name k e.0 then some e.1 else look_up k es

abbrev take_out : Name → List (Name × ℕ) → List (Name × ℕ)
take_out k [] = []
take_out k (e ∷ es) = let rest = take_out k es in if same_name k e.0 then rest else e ∷ rest

abbrev pub sample_keys : KeyTree
sample_keys = record {
  Key = Name;
  key = λ bytes bits. (take (bytes_of bits) bytes, bits);
  key_eq = same_name;
  Tree = List (Name × ℕ);
  empty = [];
  find = look_up;
  insert = λ k p t. (k, p) ∷ t;
  remove = λ k p t. take_out k t;
}

look_up-take_out :
    (j k : Name) (t : List (Name × ℕ))
    → look_up j (take_out k t) ≡ (if same_name j k then none else look_up j t)
look_up-take_out j k [] = elim (Bool-cases (same_name j k)) [
  | inl h ↦ rw h refl
  | inr h ↦ rw h refl
]
look_up-take_out j k (e ∷ es) =
    let ih = look_up-take_out j k es in
    elim (Bool-cases (same_name k e.0)) [
      | inl h ↦
          let ke : same_name j k ≡ same_name j e.0 = ap (same_name j) ((same_key_iff k e.0).0 h) in
          rw h (elim (Bool-cases (same_name j e.0)) [
            | inl t ↦ rw t (ih ∙ rw (ke ∙ t) refl)
            | inr t ↦ rw t ih
          ])
      | inr h ↦ rw h (elim (Bool-cases (same_name j k)) [
        | inl t ↦
            let je : same_name j e.0 ≡ false =
              ap (λ i. same_name i e.0) ((same_key_iff j k).0 t) ∙ h in
            rw (je, t) (ih ∙ rw t refl)
        | inr t ↦ rw t (elim (Bool-cases (same_name j e.0)) [
          | inl u ↦ rw u refl
          | inr u ↦ rw u (ih ∙ rw t refl)
        ])
      ])
    ]

-- One more than any address in the list.
abbrev pub next_address : List (Name × ℕ) → ℕ
next_address [] = 1
next_address (e ∷ es) = let rest = next_address es in if ltb e.1 rest then rest else e.1 + 1

pub look_up-lt :
    (j : Name) (y : ℕ) (t : List (Name × ℕ)) → look_up j t ≡ some y → y < next_address t
look_up-lt j y [] h = absurd (ground (arith, h))
look_up-lt j y (e ∷ es) h = elim (Bool-cases (same_name j e.0)) [
  | inl s ↦
      let found : some e.1 ≡ some y = ap (λ b. if b then some e.1 else look_up j es) (sym s) ∙ h in
      let same : e.1 ≡ y = cc in ground (arith, same)
  | inr s ↦
      let found : look_up j es ≡ some y =
        ap (λ b. if b then some e.1 else look_up j es) (sym s) ∙ h in
      ground (arith, look_up-lt j y es found)
]

pub sample_keys-Laws : TreeLaws sample_keys
sample_keys-Laws = record {
  key_eq_iff = same_key_iff;
  key-take = λ bytes bits. ap (λ (l : List ℕ). (l, bits)) (take_twice (bytes_of bits) bytes);
  find-empty = λ k. refl;
  find-insert = λ j k p t e. refl;
  find-remove = λ j k p t e. look_up-take_out j k t;
}
