-- ===== src/Fib/Lists.antt =====
-- MulticastFIB::ActiveList of include/mcastFib.h: doubly linked lists of flow entries. An entry has
-- one pair of links, which both lists of the table of flows use.
pub mod Both
use nrlsmf.Base.{ℕ, ◌+◌, ◌%◌, Option, none, some, sub32, word}
use nrlsmf.Dpd.Links.{Links, update}

-- The members `active_prev` and `active_next` of the entries.
pub record Cells : Type 0 where
  pub active_prev : ℕ → Option ℕ
  pub active_next : ℕ → Option ℕ

-- Entry::Append and Entry::Prepend.
abbrev pub put_next : ℕ → Option ℕ → Cells → Cells
put_next x v c = record c { active_next = update c.active_next x v }

abbrev pub put_prev : ℕ → Option ℕ → Cells → Cells
put_prev x v c = record c { active_prev = update c.active_prev x v }

pub record ActiveList : Type 0 where
  pub count : ℕ
  pub head : Option ℕ
  pub tail : Option ℕ

unfoldable pub no_entries : ActiveList
no_entries = record { count = 0; head = none; tail = none }

-- Prepend, up to the writes to the entry's own links.
unfoldable pub link_head : Option ℕ → ℕ → ActiveList → Cells → ActiveList × Cells
link_head (some h) x l c = (l, put_prev h (some x) c)
link_head none x l c = (record l { tail = some x }, c)

-- Prepend.
unfoldable pub prepend_entry : ℕ → ActiveList → Cells → ActiveList × Cells
unfolding link_head
prepend_entry x l c =
    let r = link_head l.head x l c in
    (
      record r.0 { head = some x; count = (l.count + 1) % word },
      put_next x l.head (put_prev x none r.1),
    )

-- The two steps of Remove, at the next entry and at the previous one.
unfoldable pub unlink_next : Option ℕ → Option ℕ → ℕ → ActiveList → Cells → ActiveList × Cells
unlink_next prev (some n) x l c = (l, put_next x none (put_prev n prev c))
unlink_next prev none x l c = (record l { tail = prev }, c)

unfoldable pub unlink_prev : Option ℕ → Option ℕ → ℕ → ActiveList → Cells → ActiveList × Cells
unlink_prev (some p) next x l c = (l, put_prev x none (put_next p next c))
unlink_prev none next x l c = (record l { head = next }, c)

-- Remove.
unfoldable pub remove_entry : ℕ → ActiveList → Cells → ActiveList × Cells
unfolding unlink_next unlink_prev
remove_entry x l c =
    let r = unlink_next (c.active_prev x) (c.active_next x) x l c in
    let s = unlink_prev (c.active_prev x) (c.active_next x) x r.0 r.1 in
    (record s.0 { count = sub32 l.count 1 }, s.1)

-- The list read from its tail, the entry that was refreshed first, to its head.
abbrev pub links : ActiveList → Cells → Links
links l c = record { prev = c.active_next; next = c.active_prev; head = l.tail; tail = l.head }
