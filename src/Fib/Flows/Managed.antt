-- ===== src/Fib/Flows/Managed.antt =====
-- A managed flow that PruneFlowList has taken out of the idle list, and that comes back.
use nrlsmf.Base.{
  ℕ, ◌<◌, ◌≡◌, refl, ◌∙◌, inl, inr, true, false, Option, none, some, Bool-cases, Option-cases, List,
  ◌∷◌, ◌==◌, word,
}
use nrlsmf.Dpd.Links.{update, update_self}
use nrlsmf.Fib.Entry.{FibEntry, refresh_entry, reset_buckets}
use nrlsmf.Fib.Entry.Operations.{reset_buckets-IsCounted}
use nrlsmf.Fib.Entry.Times.{refresh_entry_fresh}
use nrlsmf.Fib.Lists.{Cells, ActiveList, remove_entry, unlink_next, unlink_prev}
use nrlsmf.Fib.Flows.{FlowFib, drop_flow, take_idle, put_active, activate_flow, reactivate_flow}
use nrlsmf.Fib.Flows.Sound.{Sound, dropped_entries}

none_kept : (f : ℕ → Option ℕ) (p x : ℕ) → f x ≡ none → update f p none x ≡ none
none_kept f p x e = elim (Bool-cases (x == p)) [ inl h ↦ rw h refl | inr h ↦ rw h e ]

none_written : (f : ℕ → Option ℕ) (x : ℕ) → update f x none x ≡ none
none_written f x = update_self f none x

-- Remove leaves the entry at the tail without links.
tail_unlinked :
    (x : ℕ) (l : ActiveList) (c : Cells)
    → c.active_next x ≡ none
    → ((remove_entry x l c).1.active_next x ≡ none) × ((remove_entry x l c).1.active_prev x ≡ none)
unfolding remove_entry unlink_next unlink_prev
tail_unlinked x l c e = elim (Option-cases (c.active_prev x)) [
  | inl g ↦ rw (e, g) (e, g)
  | inr (p, g) ↦ rw (e, g) (none_kept c.active_next p x e, none_written c.active_prev x)
]

-- Remove of an entry without links empties the list.
remove_unlinked :
    (x : ℕ) (l : ActiveList) (c : Cells)
    → c.active_next x ≡ none
    → c.active_prev x ≡ none
    → ((remove_entry x l c).0.head ≡ none) × ((remove_entry x l c).0.tail ≡ none)
unfolding remove_entry unlink_next unlink_prev
remove_unlinked x l c e g = rw (e, g) (refl, refl)

activate_runs :
    (now x : ℕ) (f : FlowFib) (e : FibEntry)
    → refresh_entry now (reset_buckets (f.entry x)) ≡ some e
    → (g : FlowFib) × ((activate_flow now x f ≡ some g)
        × ((g.idle_list.head ≡ f.idle_list.head) × (g.idle_list.tail ≡ f.idle_list.tail)))
unfolding activate_flow put_active
activate_runs now x f e h = (
  put_active x (record f { entry = update f.entry x e; flow_active = update f.flow_active x true }),
  (rw (activate_flow, h) refl, (refl, refl)),
)

-- The state in which ReactivateFlow of an idle entry calls ActivateFlow.
back : ℕ → FlowFib → FlowFib
unfolding take_idle
back x f = record (take_idle x f) { flow_idle = update f.flow_idle x false }

reactivate_idle :
    (now x : ℕ) (f : FlowFib)
    → f.flow_idle x ≡ true
    → reactivate_flow now x f ≡ activate_flow now x (back x f)
unfolding reactivate_flow back take_idle
reactivate_idle now x f h = rw (reactivate_flow, h) refl

twice_removed :
    (x : ℕ) (f : FlowFib)
    → f.flow_managed x ≡ true
    → f.cells.active_next x ≡ none
    → ((back x (drop_flow x f)).idle_list.head ≡ none)
      × ((back x (drop_flow x f)).idle_list.tail ≡ none)
unfolding back drop_flow take_idle
twice_removed x f m e =
    let alone = tail_unlinked x f.idle_list f.cells e in
    let r = remove_entry x f.idle_list f.cells in rw m (remove_unlinked x r.0 r.1 alone.0 alone.1)

back_entry : (x : ℕ) (f : FlowFib) → (back x f).entry x ≡ f.entry x
unfolding back take_idle
back_entry x f = refl

dropped_idle : (x : ℕ) (f : FlowFib) → (drop_flow x f).flow_idle x ≡ f.flow_idle x
unfolding drop_flow take_idle
dropped_idle x f = elim (Bool-cases (f.flow_managed x)) [ inl h ↦ rw h refl | inr h ↦ rw h refl ]

-- If the lists of flows are sound, and the entry at the tail of the idle list is managed and
-- marked idle, then after PruneFlowList's step that takes it out, ReactivateFlow of it, at any
-- 32-bit tick, returns with the head and the tail of the idle list NULL, whatever other entries
-- the list had.
pub managed_flow_empties_idle_list :
    (now x : ℕ) (f : FlowFib) (actives others : List ℕ)
    → now < word
    → Sound f actives (x ∷ others)
    → f.flow_managed x ≡ true
    → f.flow_idle x ≡ true
    → (g : FlowFib) × ((reactivate_flow now x (drop_flow x f) ≡ some g)
        × ((g.idle_list.head ≡ none) × (g.idle_list.tail ≡ none)))
managed_flow_empties_idle_list now x f actives others small s m i =
    let h = drop_flow x f in
    let same : (back x h).entry x ≡ f.entry x = back_entry x h ∙ dropped_entries x f x in
    let e =
      refresh_entry_fresh now (reset_buckets (f.entry x)) small
        (reset_buckets-IsCounted (f.entry x) (s.entries x)) in
    let run = activate_runs now x (back x h) e.0 (rw same e.1.0) in
    let empty = twice_removed x f m s.idle_lists.holds.chain.0 in
    (
      run.0,
      (
        reactivate_idle now x h (dropped_idle x f ∙ i) ∙ run.1.0,
        (run.1.1.0 ∙ empty.0, run.1.1.1 ∙ empty.1),
      ),
    )
