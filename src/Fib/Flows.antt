-- ===== src/Fib/Flows.antt =====
-- The lists of active and idle flows of MulticastFIB (include/mcastFib.h, src/common/mcastFib.cpp).
-- The table of flows is the set of the entries in it; `delete` of an entry is the end of its address.
pub mod Sound
pub mod Turns
pub mod Expire
pub mod Demote
pub mod Prune
pub mod Managed
mod Tests
use nrlsmf.Base.{ℕ, zero, suc, Bool, true, false, Option, none, some, leb, if◌then◌else◌}
use nrlsmf.Dpd.Links.{update}
use nrlsmf.Fib.Entry.{FibEntry, refresh_entry, age_entry, reset_buckets}
use nrlsmf.Fib.Lists.{Cells, ActiveList, prepend_entry, remove_entry}

-- DEFAULT_FLOW_ACTIVE_TIMEOUT and DEFAULT_FLOW_IDLE_TIMEOUT.
abbrev pub flow_active_timeout : ℕ
flow_active_timeout = 60000000

abbrev pub flow_idle_timeout : ℕ
flow_idle_timeout = 120000000

-- The entries at their addresses, with their flags, the two lists and the table.
pub record FlowFib : Type 0 where
  pub entry : ℕ → FibEntry
  pub flow_managed : ℕ → Bool
  pub flow_active : ℕ → Bool
  pub flow_idle : ℕ → Bool
  pub cells : Cells
  pub active_list : ActiveList
  pub idle_list : ActiveList
  pub flow_table : ℕ → Bool

abbrev pub put_entry : ℕ → FibEntry → FlowFib → FlowFib
put_entry x e f = record f { entry = update f.entry x e }

-- Prepend and Remove on each list.
unfoldable pub put_active : ℕ → FlowFib → FlowFib
unfolding prepend_entry
put_active x f =
    let r = prepend_entry x f.active_list f.cells in record f { active_list = r.0; cells = r.1 }

unfoldable pub take_active : ℕ → FlowFib → FlowFib
unfolding remove_entry
take_active x f =
    let r = remove_entry x f.active_list f.cells in record f { active_list = r.0; cells = r.1 }

unfoldable pub put_idle : ℕ → FlowFib → FlowFib
unfolding prepend_entry
put_idle x f =
    let r = prepend_entry x f.idle_list f.cells in record f { idle_list = r.0; cells = r.1 }

unfoldable pub take_idle : ℕ → FlowFib → FlowFib
unfolding remove_entry
take_idle x f =
    let r = remove_entry x f.idle_list f.cells in record f { idle_list = r.0; cells = r.1 }

-- ActivateFlow.
unfoldable pub activate_flow : ℕ → ℕ → FlowFib → Option FlowFib
unfolding put_active refresh_entry reset_buckets
activate_flow now x f = elim (refresh_entry now (reset_buckets (f.entry x))) [
  | none ↦ none
  | some e ↦ some (
      put_active x
        (record f { entry = update f.entry x e; flow_active = update f.flow_active x true }))
]

-- ReactivateFlow.
unfoldable pub reactivate_flow : ℕ → ℕ → FlowFib → Option FlowFib
unfolding activate_flow take_idle
reactivate_flow now x f =
    activate_flow now x (
      if f.flow_idle x
      then record (take_idle x f) { flow_idle = update f.flow_idle x false }
      else f)

-- RefreshFlow.
unfoldable pub refresh_flow : ℕ → ℕ → FlowFib → Option FlowFib
unfolding put_active take_active refresh_entry
refresh_flow now x f = elim (refresh_entry now (f.entry x)) [
  | none ↦ none
  | some e ↦ some (put_active x (take_active x (put_entry x e f)))
]

-- DeactivateFlow.
unfoldable pub deactivate_flow : ℕ → ℕ → FlowFib → Option FlowFib
unfolding take_active put_idle refresh_entry
deactivate_flow now x f = elim (refresh_entry now (f.entry x)) [
  | none ↦ none
  | some e ↦ some (
      put_idle x (record (take_active x f) {
        entry = update f.entry x e;
        flow_active = update f.flow_active x false;
        flow_idle = update f.flow_idle x true;
      }))
]

-- The first loop of PruneFlowList, from the entry at the pointer on; each turn moves one entry to
-- the idle list.
unfoldable pub demote : ℕ → ℕ → Option ℕ → FlowFib → Option FlowFib
unfolding age_entry deactivate_flow
demote fuel now none f = some f
demote zero now (some x) f = none
demote (suc fuel) now (some x) f = elim (age_entry now (f.entry x)) [
  | none ↦ none
  | some r ↦
      let aged = put_entry x r.1 f in
      let moved = deactivate_flow now x aged in
      let rest : Option FlowFib = elim moved [
        | none ↦ none
        | some g ↦ demote fuel now (f.cells.active_prev x) g
      ] in
      if leb flow_active_timeout r.0 then rest else some aged
]

-- The removal of an entry in the second loop: a managed one stays in the table.
unfoldable pub drop_flow : ℕ → FlowFib → FlowFib
unfolding take_idle
drop_flow x f =
    let g = take_idle x f in
    if f.flow_managed x then g else record g { flow_table = update f.flow_table x false }

-- The second loop.
unfoldable pub expire : ℕ → ℕ → Option ℕ → FlowFib → Option FlowFib
unfolding age_entry drop_flow
expire fuel now none f = some f
expire zero now (some x) f = none
expire (suc fuel) now (some x) f = elim (age_entry now (f.entry x)) [
  | none ↦ none
  | some r ↦
      let aged = put_entry x r.1 f in
      let rest = expire fuel now (f.cells.active_prev x) (drop_flow x aged) in
      if leb flow_idle_timeout r.0 then rest else some aged
]

-- PruneFlowList. Each loop runs at most as often as its list has entries.
unfoldable pub prune_flow_list : ℕ → FlowFib → Option FlowFib
unfolding demote expire
prune_flow_list now f = elim (demote f.active_list.count now f.active_list.tail f) [
  | none ↦ none
  | some g ↦ expire g.idle_list.count now g.idle_list.tail g
]
