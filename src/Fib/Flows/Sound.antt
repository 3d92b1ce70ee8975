-- ===== src/Fib/Flows/Sound.antt =====
-- The two lists of flows, as sequences from the tail to the head, and what moves entries.
use mathlib.Core.List.{append_assoc}
use nrlsmf.Base.{
  ℕ, suc, ◌+◌, ◌%◌, ◌<◌, ◌≡◌, ◌≢◌, refl, sym, subst, true, false, Bool-cases, inl, inr, some, List,
  [], ◌∷◌, ◌++◌, arith, All, length, length-append, word, sub32, ◌==◌,
}
use nrlsmf.Dpd.Links.{update}
use nrlsmf.Dpd.Links.Seg.{Apart, Distinct, Apart-split, Distinct-middle, Distinct-snoc}
use nrlsmf.Dpd.Links.Order.{Holds}
use nrlsmf.Fib.Entry.{FibEntry, refresh_entry}
use nrlsmf.Fib.Entry.Count.{IsCounted}
use nrlsmf.Fib.Lists.{Cells, ActiveList, prepend_entry, remove_entry, links}
use nrlsmf.Fib.Lists.Both.{
  remove_entry-Holds, remove_entry_other, prepend_entry-Holds, prepend_entry_other,
}
use nrlsmf.Fib.Flows.{
  FlowFib, take_active, put_idle, take_idle, put_entry, drop_flow, deactivate_flow,
}

-- The list is the entries `xs`, from the tail to the head, and counts them.
pub record Lists (l : ActiveList) (c : Cells) (xs : List ℕ) : Type 0 where
  pub holds : Holds (links l c) xs
  pub counted : l.count ≡ length xs

-- No entry is in both lists, and they have fewer entries than the counts can hold.
pub record Sound (f : FlowFib) (actives idles : List ℕ) : Type 0 where
  pub active_lists : Lists f.active_list f.cells actives
  pub idle_lists : Lists f.idle_list f.cells idles
  pub apart : Distinct (actives ++ idles)
  pub room : length actives + length idles < word
  pub entries : (q : ℕ) → IsCounted (f.entry q)

-- In a sequence without repetitions the entries of each part stand apart from the other.
split_back : (xs ys : List ℕ) → Distinct (xs ++ ys) → All (λ q. Apart q xs) ys
split_back xs [] d = tt
split_back xs (y ∷ ys) d = let m = Distinct-middle y xs ys d in (m.0, split_back xs ys m.2)

split_front : (xs ys : List ℕ) → Distinct (xs ++ ys) → All (λ q. Apart q ys) xs
split_front [] ys d = tt
split_front (x ∷ xs) ys d = ((Apart-split x xs ys d.0).1, split_front xs ys d.1)

split_cons :
    (x : ℕ) (xs ys : List ℕ)
    → Apart x xs
    → All (λ q. Apart q ys) xs
    → All (λ q. Apart q (x ∷ ys)) xs
split_cons x [] ys a b = tt
split_cons x (z ∷ zs) ys a b = ((λ e. a.0 (sym e), b.0), split_cons x zs ys a.1 b.1)

remove_count : (x : ℕ) (l : ActiveList) (c : Cells) → (remove_entry x l c).0.count ≡ sub32 l.count 1
unfolding remove_entry
remove_count x l c = refl

prepend_count :
    (x : ℕ) (l : ActiveList) (c : Cells) → (prepend_entry x l c).0.count ≡ (l.count + 1) % word
unfolding prepend_entry
prepend_count x l c = refl

-- Taking out the entry at the tail leaves this list and another in order.
pub take_tail :
    (x : ℕ) (l k : ActiveList) (c : Cells) (zs xs : List ℕ)
    → Lists l c (x ∷ zs)
    → Lists k c xs
    → suc (length zs) < word
    → All (λ q. Apart q (x ∷ zs)) xs
    → Lists (remove_entry x l c).0 (remove_entry x l c).1 zs × Lists k (remove_entry x l c).1 xs
take_tail x l k c zs xs h other small a = (
  record {
    holds = remove_entry-Holds x l c [] zs h.holds;
    counted = omega (arith, remove_count x l c, h.counted);
  },
  record {
    holds = remove_entry_other x l k c [] zs xs h.holds a other.holds;
    counted = other.counted;
  },
)

-- So does putting an entry at the head.
pub put_head :
    (x : ℕ) (l k : ActiveList) (c : Cells) (own xs : List ℕ)
    → Lists l c own
    → Lists k c xs
    → length own + 1 < word
    → Apart x own
    → All (λ q. Apart q (x ∷ own)) xs
    → Lists (prepend_entry x l c).0 (prepend_entry x l c).1 (own ++ (x ∷ []))
      × Lists k (prepend_entry x l c).1 xs
put_head x l k c own xs h other small new a = (
  record {
    holds = prepend_entry-Holds x l c own new h.holds;
    counted = omega (arith, prepend_count x l c, h.counted, length-append own (x ∷ []));
  },
  record {
    holds = prepend_entry_other x l k c own xs h.holds a other.holds;
    counted = other.counted;
  },
)

update-IsCounted :
    (x : ℕ) (e : FibEntry) (f : ℕ → FibEntry)
    → IsCounted e
    → ((q : ℕ) → IsCounted (f q))
    → (q : ℕ) → IsCounted (update f x e q)
update-IsCounted x e f c all q = elim (Bool-cases (q == x)) [
  | inl h ↦ rw h c
  | inr h ↦ rw h (all q)
]

pub put_entry-Sound :
    (x : ℕ) (e : FibEntry) (f : FlowFib) (actives idles : List ℕ)
    → IsCounted e
    → Sound f actives idles
    → Sound (put_entry x e f) actives idles
put_entry-Sound x e f actives idles c s = record {
  active_lists = s.active_lists;
  idle_lists = s.idle_lists;
  apart = s.apart;
  room = s.room;
  entries = update-IsCounted x e f.entry c s.entries;
}

-- DeactivateFlow, with the refreshed entry.
unfoldable pub moved : ℕ → FibEntry → FlowFib → FlowFib
unfolding put_idle take_active
moved x e f = put_idle x (record (take_active x f) {
  entry = update f.entry x e;
  flow_active = update f.flow_active x false;
  flow_idle = update f.flow_idle x true;
})

pub deactivate_flow-moved :
    (now x : ℕ) (e : FibEntry) (f : FlowFib)
    → refresh_entry now (f.entry x) ≡ some e
    → deactivate_flow now x f ≡ some (moved x e f)
unfolding moved put_idle take_active deactivate_flow
deactivate_flow-moved now x e f h = rw (deactivate_flow, h) refl

pub moved_others :
    (x : ℕ) (e : FibEntry) (f : FlowFib) (q : ℕ) → q ≢ x → (moved x e f).entry q ≡ f.entry q
unfolding moved put_idle take_active
moved_others x e f q h = let n : (q == x) ≡ false = ground arith in rw n refl

pub moved_self : (x : ℕ) (e : FibEntry) (f : FlowFib) → (moved x e f).entry x ≡ e
unfolding moved put_idle take_active
moved_self x e f = let y : (x == x) ≡ true = ground arith in rw y refl

pub dropped_entries : (x : ℕ) (f : FlowFib) (q : ℕ) → (drop_flow x f).entry q ≡ f.entry q
unfolding drop_flow take_idle
dropped_entries x f q = elim (Bool-cases (f.flow_managed x)) [
  | inl h ↦ rw h refl
  | inr h ↦ rw h refl
]

-- The entry at the tail of the active list, moved to the head of the idle one.
module _ (x : ℕ) (e : FibEntry) (f : FlowFib) (zs idles : List ℕ) (c : IsCounted e)
    (s : Sound f (x ∷ zs) idles) where
  taken :
      Lists (remove_entry x f.active_list f.cells).0 (remove_entry x f.active_list f.cells).1 zs
      × Lists f.idle_list (remove_entry x f.active_list f.cells).1 idles
  taken =
      take_tail x f.active_list f.idle_list f.cells zs idles s.active_lists s.idle_lists
        (omega (arith, s.room)) (split_back (x ∷ zs) idles s.apart)

  moved_order : Distinct (zs ++ (idles ++ (x ∷ [])))
  moved_order =
      subst Distinct (append_assoc zs idles (x ∷ []))
        (Distinct-snoc x (zs ++ idles) s.apart.0 s.apart.1)

  pub moved-Sound : Sound (moved x e f) zs (idles ++ (x ∷ []))
  unfolding moved put_idle take_active
  moved-Sound =
      let r = remove_entry x f.active_list f.cells in
      let own = (Apart-split x zs idles s.apart.0).1 in
      let both =
        put_head x f.idle_list r.0 r.1 idles zs taken.1 taken.0 (omega (arith, s.room)) own (
          split_cons x zs idles (Apart-split x zs idles s.apart.0).0
            (split_front zs idles s.apart.1)) in
      record {
        active_lists = both.1;
        idle_lists = both.0;
        apart = moved_order;
        room = omega (arith, s.room, length-append idles (x ∷ []));
        entries = update-IsCounted x e f.entry c s.entries;
      }

-- The entry at the tail of the idle list, taken out of it.
pub drop_flow-Sound :
    (x : ℕ) (f : FlowFib) (actives zs : List ℕ)
    → Sound f actives (x ∷ zs)
    → Sound (drop_flow x f) actives zs
unfolding drop_flow take_idle
drop_flow-Sound x f actives zs s =
    let both =
      take_tail x f.idle_list f.active_list f.cells zs actives s.idle_lists s.active_lists
        (omega (arith, s.room)) (split_front actives (x ∷ zs) s.apart) in
    let rest = (Distinct-middle x actives zs s.apart).2 in
    elim (Bool-cases (f.flow_managed x)) [
      | inl h ↦ rw h (record {
        active_lists = both.1;
        idle_lists = both.0;
        apart = rest;
        room = omega (arith, s.room);
        entries = s.entries;
      })
      | inr h ↦ rw h (record {
        active_lists = both.1;
        idle_lists = both.0;
        apart = rest;
        room = omega (arith, s.room);
        entries = s.entries;
      })
    ]
