-- ===== src/Fib/Flows/Prune.antt =====
-- What PruneFlowList does to the lists of active and idle flows.
use mathlib.Core.List.{append-nil}
use nrlsmf.Base.{
  ℕ, ◌≤◌, ◌<◌, ◌≡◌, refl, sym, subst, Option, some, List, [], ◌∷◌, ◌++◌, arith, All, length-append,
  word,
}
use nrlsmf.Fib.Entry.Times.{entry_age}
use nrlsmf.Fib.Flows.{
  FlowFib, demote, expire, prune_flow_list, flow_active_timeout, flow_idle_timeout,
}
use nrlsmf.Fib.Flows.Sound.{Sound}
use nrlsmf.Fib.Flows.Turns.{HaveAges, StartsBelow}
use nrlsmf.Fib.Flows.Expire.{Expired, expire-Expired}
use nrlsmf.Fib.Flows.Demote.{Demoted, demote-Demoted}

-- What PruneFlowList makes of the active entries `actives` and the idle ones `idles`, stalest first.
pub record Pruned (now : ℕ) (f : FlowFib) (actives idles : List ℕ) (r : Option FlowFib)
    : Type 0 where
  pub old : List ℕ
  pub young : List ℕ
  pub active_parts : actives ≡ old ++ young
  pub old_moved : All (λ q. flow_active_timeout ≤ entry_age now (f.entry q)) old
  pub young_stay : StartsBelow flow_active_timeout (λ q. entry_age now (f.entry q)) young
  pub gone : List ℕ
  pub kept : List ℕ
  pub idle_parts : idles ≡ gone ++ kept
  pub old_gone : All (λ q. flow_idle_timeout ≤ entry_age now (f.entry q)) gone
  pub young_kept : StartsBelow flow_idle_timeout (λ q. entry_age now (f.entry q)) kept
  pub after : FlowFib
  pub returns : r ≡ some after
  pub sound : Sound after young (kept ++ old)

own_ages :
    (now : ℕ) (f : FlowFib) (xs : List ℕ) → HaveAges now (λ q. entry_age now (f.entry q)) f xs
own_ages now f [] = tt
own_ages now f (x ∷ xs) = (refl, own_ages now f xs)

expire_runs :
    (now : ℕ) (age : ℕ → ℕ) (g : FlowFib) (actives idles fresh : List ℕ)
    → Sound g actives (idles ++ fresh)
    → HaveAges now age g idles
    → HaveAges now (λ q. 0) g fresh
    → Expired now age actives idles fresh (expire g.idle_list.count now g.idle_list.tail g)
expire_runs now age g actives idles fresh s i z =
    subst (λ (t : Option ℕ). Expired now age actives idles fresh (expire g.idle_list.count now t g))
      (sym s.idle_lists.holds.head_is)
      (expire-Expired g.idle_list.count now age g actives idles fresh
        (omega (arith, s.idle_lists.counted, length-append idles fresh)) s i z)

demote_runs :
    (now : ℕ) (f : FlowFib) (actives idles : List ℕ)
    → now < word
    → Sound f actives idles
    → Demoted now
        (λ q. entry_age now (f.entry q))
        (λ q. entry_age now (f.entry q))
        actives
        idles
        []
        (demote f.active_list.count now f.active_list.tail f)
demote_runs now f actives idles small s =
    let age : ℕ → ℕ = λ q. entry_age now (f.entry q) in
    subst
      (λ (t : Option ℕ). Demoted now age age actives idles [] (demote f.active_list.count now t f))
      (sym s.active_lists.holds.head_is)
      (demote-Demoted f.active_list.count now age age f actives idles [] small
        (omega (arith, s.active_lists.counted)) (rw (append-nil idles) s) (own_ages now f actives)
        (own_ages now f idles) tt)

-- If the active and idle lists of flows are sound, with fewer than `2 ^ 32` entries in all,
-- none in both, and each with its count of forwarding buckets right and no bucket without a
-- rate, then at any 32-bit tick PruneFlowList returns, with sound lists: from the tail on, the
-- active entries up to the first one of an age below DEFAULT_FLOW_ACTIVE_TIMEOUT have moved, in
-- order, to the head end of the idle list, and the idle entries up to the first one of an age
-- below DEFAULT_FLOW_IDLE_TIMEOUT are out; all others are where they were.
pub prune_flow_list-Pruned :
    (now : ℕ) (f : FlowFib) (actives idles : List ℕ)
    → now < word
    → Sound f actives idles
    → Pruned now f actives idles (prune_flow_list now f)
unfolding prune_flow_list
prune_flow_list-Pruned now f actives idles small s =
    let d = demote_runs now f actives idles small s in
    let e =
      expire_runs now (λ q. entry_age now (f.entry q)) d.after d.young idles d.old d.sound
        d.idle_ages d.fresh_ages in
    record {
      old = d.old;
      young = d.young;
      active_parts = d.parts;
      old_moved = d.old_moved;
      young_stay = d.young_stay;
      gone = e.gone;
      kept = e.kept;
      idle_parts = e.parts;
      old_gone = e.old_gone;
      young_kept = e.young_kept;
      after = e.after;
      returns = rw (prune_flow_list, d.returns) e.returns;
      sound = e.sound;
    }
