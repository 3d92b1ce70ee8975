-- ===== src/Dpd/Links.antt =====
-- The doubly linked list of SmfFlow::List (include/smfDpd.h, src/common/smfDpd.cpp): flows at
-- addresses, each with its `prev` and `next`, and the list's `head` and `tail`.
pub mod Seg
pub mod Order
use nrlsmf.Base.{ℕ, ◌≡◌, ◌≢◌, arith, Option, none, some, ◌==◌, if◌then◌else◌}

-- A write to one field of the flow at address `p`.
abbrev pub update {ℓ} : {A : Type ℓ} → (ℕ → A) → ℕ → A → ℕ → A
update f p v q = if q == p then v else f q

pub update-ne {ℓ} : {A : Type ℓ} (f : ℕ → A) (v : A) (p q : ℕ) → p ≢ q → update f p v q ≡ f q
update-ne f v p q h = ground arith

pub update_self {ℓ} : {A : Type ℓ} (f : ℕ → A) (v : A) (p : ℕ) → update f p v p ≡ v
update_self f v p = ground arith

pub record Links : Type 0 where
  pub prev : ℕ → Option ℕ
  pub next : ℕ → Option ℕ
  pub head : Option ℕ
  pub tail : Option ℕ

-- Flow::Append and Flow::Prepend: `next = nextFlow` and `prev = prevFlow`.
abbrev pub set_next : ℕ → Option ℕ → Links → Links
set_next p v l = record l { next = update l.next p v }

abbrev pub set_prev : ℕ → Option ℕ → Links → Links
set_prev p v l = record l { prev = update l.prev p v }

-- SmfFlow::List::AppendToList.
unfoldable pub append_to_list : ℕ → Links → Links
append_to_list x l = set_next x none (elim l.tail [
  | some t ↦ record (set_next t (some x) (set_prev x (some t) l)) { tail = some x }
  | none ↦ record (set_prev x none l) { head = some x; tail = some x }
])

-- The two steps of RemoveFromList: past the previous flow, and before the next one.
unfoldable pub bypass_next : Option ℕ → Option ℕ → Links → Links
bypass_next (some p) n l = set_next p n l
bypass_next none n l = record l { head = n }

unfoldable pub bypass_prev : Option ℕ → Option ℕ → Links → Links
bypass_prev p (some n) l = set_prev n p l
bypass_prev p none l = record l { tail = p }

-- SmfFlow::List::RemoveFromList.
unfoldable pub remove_from_list : ℕ → Links → Links
remove_from_list x l = bypass_prev (l.prev x) (l.next x) (bypass_next (l.prev x) (l.next x) l)

-- SmfFlow::List::MoveToTail.
unfoldable pub move_to_tail : ℕ → Links → Links
move_to_tail x l = append_to_list x (remove_from_list x l)

-- SmfFlow::List::List.
unfoldable pub no_links : Links
no_links = record { prev = λ q. none; next = λ q. none; head = none; tail = none }
