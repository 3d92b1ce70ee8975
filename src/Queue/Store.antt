-- ===== src/Queue/Store.antt =====
-- Protolib's ProtoListTemplate, the linked list that holds the packets of a queue, and its item
-- pool: their operations are the parameter `PacketList`, and what the code relies on is `Laws`.
use nrlsmf.Base.{ℕ, ◌≡◌, Option, none, some, List, [], ◌∷◌, ◌++◌}
use nrlsmf.Dpd.Links.Seg.{first, final, Apart}

pub record PacketList : Type 1 where
  pub Packets : Type 0
  pub empty : Packets
  -- The packets at their addresses, as an iterator gives them, from the head on.
  pub items : Packets → List ℕ
  pub get_head : Packets → Option ℕ
  pub get_tail : Packets → Option ℕ
  pub prepend : ℕ → Packets → Packets
  pub append : ℕ → Packets → Packets
  -- Insert: the first packet goes before the second.
  pub insert : ℕ → ℕ → Packets → Packets
  pub remove : ℕ → Packets → Packets
  pub remove_head : Packets → Option ℕ × Packets
  pub remove_tail : Packets → Option ℕ × Packets
  pub Pool : Type 0
  pub put : ℕ → Pool → Pool

module _ (P : PacketList) where
  open P use {
    Packets, empty, items, get_head, get_tail, prepend, append, insert, remove, remove_head,
    remove_tail,
  }

  pub record Laws : Type 0 where
    pub items-empty : items empty ≡ []
    pub head_is : (l : Packets) → get_head l ≡ first (items l) none
    pub tail_is : (l : Packets) → get_tail l ≡ final none (items l)
    pub items-prepend : (p : ℕ) (l : Packets) → items (prepend p l) ≡ p ∷ items l
    pub items-append : (p : ℕ) (l : Packets) → items (append p l) ≡ items l ++ (p ∷ [])
    pub items-insert :
        (p x : ℕ) (ys zs : List ℕ) (l : Packets)
        → Apart x ys
        → items l ≡ ys ++ (x ∷ zs)
        → items (insert p x l) ≡ ys ++ (p ∷ (x ∷ zs))
    pub items-remove :
        (x : ℕ) (ys zs : List ℕ) (l : Packets)
        → Apart x ys
        → items l ≡ ys ++ (x ∷ zs)
        → items (remove x l) ≡ ys ++ zs
    pub remove_head-none : (l : Packets) → items l ≡ [] → remove_head l ≡ (none, l)
    pub remove_head-some :
        (x : ℕ) (xs : List ℕ) (l : Packets)
        → items l ≡ x ∷ xs
        → ((remove_head l).0 ≡ some x) × (items (remove_head l).1 ≡ xs)
    pub remove_tail-none : (l : Packets) → items l ≡ [] → remove_tail l ≡ (none, l)
    pub remove_tail-some :
        (x : ℕ) (xs : List ℕ) (l : Packets)
        → items l ≡ xs ++ (x ∷ [])
        → ((remove_tail l).0 ≡ some x) × (items (remove_tail l).1 ≡ xs)
