-- ===== src/Fib/Flows/Turns.antt =====
-- The ages of flow entries over one turn of the loops of PruneFlowList.
use nrlsmf.Base.{ℕ, suc, ◌<◌, ◌≡◌, ◌≢◌, sym, ap, ◌∙◌, true, Option, some, List, [], ◌∷◌, All, leb}
use nrlsmf.Dpd.Links.Seg.{Apart}
use nrlsmf.Fib.Entry.{FibEntry, age_entry}
use nrlsmf.Fib.Entry.Times.{entry_age}
use nrlsmf.Fib.Flows.{
  FlowFib, put_entry, deactivate_flow, drop_flow, demote, expire, flow_active_timeout,
  flow_idle_timeout,
}

-- The entries have these ages.
abbrev pub HaveAges : ℕ → (ℕ → ℕ) → FlowFib → List ℕ → Type 0
HaveAges now age f xs = All (λ q. entry_age now (f.entry q) ≡ age q) xs

-- The first of the entries, if there is one, is younger than the limit.
abbrev pub StartsBelow : ℕ → (ℕ → ℕ) → List ℕ → Type 0
StartsBelow limit age [] = Unit
StartsBelow limit age (x ∷ xs) = age x < limit

pub ages_kept :
    (now : ℕ) (age : ℕ → ℕ) (x : ℕ) (f g : FlowFib) (xs : List ℕ)
    → ((q : ℕ) → q ≢ x → g.entry q ≡ f.entry q)
    → Apart x xs
    → HaveAges now age f xs
    → HaveAges now age g xs
ages_kept now age x f g [] same a h = tt
ages_kept now age x f g (y ∷ ys) same a h =
    (ap (entry_age now) (same y (λ e. a.0 (sym e))) ∙ h.0, ages_kept now age x f g ys same a.1 h.1)

-- One turn of each loop on an entry that has come of age.
pub expire_turn :
    (fuel now x : ℕ) (f : FlowFib) (r : ℕ × FibEntry) (n : Option ℕ)
    → age_entry now (f.entry x) ≡ some r
    → leb flow_idle_timeout r.0 ≡ true
    → f.cells.active_prev x ≡ n
    → expire (suc fuel) now (some x) f ≡ expire fuel now n (drop_flow x (put_entry x r.1 f))
unfolding expire
expire_turn fuel now x f r n e old next =
    rw (expire, e, old)
      (ap (λ (p : Option ℕ). expire fuel now p (drop_flow x (put_entry x r.1 f))) next)

pub demote_turn :
    (fuel now x : ℕ) (f g : FlowFib) (r : ℕ × FibEntry) (n : Option ℕ)
    → age_entry now (f.entry x) ≡ some r
    → leb flow_active_timeout r.0 ≡ true
    → deactivate_flow now x (put_entry x r.1 f) ≡ some g
    → f.cells.active_prev x ≡ n
    → demote (suc fuel) now (some x) f ≡ demote fuel now n g
unfolding demote
demote_turn fuel now x f g r n e old d next =
    rw (demote, e, old, d) (ap (λ (p : Option ℕ). demote fuel now p g) next)
