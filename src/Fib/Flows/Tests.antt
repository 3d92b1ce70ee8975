-- ===== src/Fib/Flows/Tests.antt =====
-- The lists of flows on a concrete state.
use nrlsmf.Base.{
  ℕ, ◌≡◌, refl, true, not, ◌||◌, none, some, [], ◌∷◌, arith, ◌==◌, if◌then◌else◌, Bool-cases, inl,
  inr,
}
use nrlsmf.Fib.Activity.{no_activity, refresh_activity}
use nrlsmf.Fib.Relay.{AckingCondition}
use nrlsmf.Fib.Entry.{FibEntry, new_entry}
use nrlsmf.Fib.Entry.Count.{IsCounted}
use nrlsmf.Fib.Flows.{FlowFib, prune_flow_list, drop_flow, reactivate_flow}
use nrlsmf.Fib.Flows.Managed.{managed_flow_empties_idle_list}
use nrlsmf.Fib.Flows.Sound.{Sound}
use nrlsmf.Fib.Flows.Prune.{Pruned, prune_flow_list-Pruned}

abbrev conditions : AckingCondition
conditions = record { count_threshold = 10; interval_max = 30000000; interval_min = 100000 }

-- An entry that was seen at a tick.
abbrev seen_at : ℕ → FibEntry
seen_at t = record (new_entry conditions 0 0 true) {
  activity_status = refresh_activity t true no_activity;
}

seen_at-IsCounted : (t : ℕ) → IsCounted (seen_at t)
unfolding new_entry
seen_at-IsCounted t = record { counts = refl; rates = refl }

-- Flows 1 and 2 are active, and 3 and 4 are idle; 2 was seen 10 seconds ago, 4 is as old, and the
-- others 200 seconds. Flow 3 is managed.
abbrev four_flows : FlowFib
four_flows = record {
  entry = λ q. if q == 2 || q == 4 then seen_at 190000000 else seen_at 0;
  flow_managed = λ q. q == 3;
  flow_active = λ q. not (q == 3 || q == 4);
  flow_idle = λ q. q == 3 || q == 4;
  cells = record {
    active_prev = λ q. if q == 1 then some 2 else if q == 3 then some 4 else none;
    active_next = λ q. if q == 2 then some 1 else if q == 4 then some 3 else none;
  };
  active_list = record { count = 2; head = some 2; tail = some 1 };
  idle_list = record { count = 2; head = some 4; tail = some 3 };
  flow_table = λ q. true;
}

four_flows-IsCounted : (q : ℕ) → IsCounted (four_flows.entry q)
four_flows-IsCounted q = elim (Bool-cases (q == 2 || q == 4)) [
  | inl h ↦ rw h (seen_at-IsCounted 190000000)
  | inr h ↦ rw h (seen_at-IsCounted 0)
]

four_flows-Sound : Sound four_flows (1 ∷ 2 ∷ []) (3 ∷ 4 ∷ [])
four_flows-Sound = record {
  active_lists = record {
    holds = record {
      head_is = refl;
      tail_is = refl;
      chain = (refl, refl, (refl, refl, tt));
      distinct = ((λ e. omega (arith, e), tt), (tt, tt));
    };
    counted = refl;
  };
  idle_lists = record {
    holds = record {
      head_is = refl;
      tail_is = refl;
      chain = (refl, refl, (refl, refl, tt));
      distinct = ((λ e. omega (arith, e), tt), (tt, tt));
    };
    counted = refl;
  };
  apart = (
    (λ e. omega (arith, e), (λ e. omega (arith, e), (λ e. omega (arith, e), tt))),
    ((λ e. omega (arith, e), (λ e. omega (arith, e), tt)), ((λ e. omega (arith, e), tt), (tt, tt))),
  );
  room = omega arith;
  entries = four_flows-IsCounted;
}

prune_flow_list-Pruned_example :
    Pruned 200000000 four_flows (1 ∷ 2 ∷ []) (3 ∷ 4 ∷ []) (prune_flow_list 200000000 four_flows)
prune_flow_list-Pruned_example =
    prune_flow_list-Pruned 200000000 four_flows (1 ∷ 2 ∷ []) (3 ∷ 4 ∷ []) (omega arith)
      four_flows-Sound

-- Flow 4 is lost with it.
managed_flow_empties_idle_list_example :
    (g : FlowFib) × ((reactivate_flow 200000000 3 (drop_flow 3 four_flows) ≡ some g)
      × ((g.idle_list.head ≡ none) × (g.idle_list.tail ≡ none)))
managed_flow_empties_idle_list_example =
    managed_flow_empties_idle_list 200000000 3 four_flows (1 ∷ 2 ∷ []) (4 ∷ []) (omega arith)
      four_flows-Sound refl refl
