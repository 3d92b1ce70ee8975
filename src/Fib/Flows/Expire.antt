-- ===== src/Fib/Flows/Expire.antt =====
-- The second loop of PruneFlowList: idle flows that have come of age are taken out.
use nrlsmf.Base.{
  ℕ, zero, suc, ◌+◌, ◌≤◌, ◌≡◌, ◌≢◌, refl, sym, ap, ◌∙◌, inl, inr, false, Bool-cases, Option, none,
  some, List, [], ◌∷◌, ◌++◌, arith, All, length, leb,
}
use nrlsmf.Dpd.Links.{update-ne}
use nrlsmf.Dpd.Links.Seg.{Apart-split, first}
use nrlsmf.Fib.Entry.Times.{age_entry_age}
use nrlsmf.Fib.Flows.{FlowFib, put_entry, drop_flow, expire, flow_idle_timeout}
use nrlsmf.Fib.Flows.Sound.{Sound, put_entry-Sound, drop_flow-Sound, dropped_entries}
use nrlsmf.Fib.Flows.Turns.{HaveAges, StartsBelow, ages_kept, expire_turn}

-- The result of the second loop.
pub record Expired (now : ℕ) (age : ℕ → ℕ) (actives idles fresh : List ℕ) (r : Option FlowFib)
    : Type 0 where
  pub gone : List ℕ
  pub kept : List ℕ
  pub parts : idles ≡ gone ++ kept
  pub old_gone : All (λ q. flow_idle_timeout ≤ age q) gone
  pub young_kept : StartsBelow flow_idle_timeout age kept
  pub after : FlowFib
  pub returns : r ≡ some after
  pub sound : Sound after actives (kept ++ fresh)

pub expire-Expired :
    (fuel now : ℕ) (age : ℕ → ℕ) (f : FlowFib) (actives idles fresh : List ℕ)
    → length idles + length fresh ≤ fuel
    → Sound f actives (idles ++ fresh)
    → HaveAges now age f idles
    → HaveAges now (λ q. 0) f fresh
    → Expired now age actives idles fresh (expire fuel now (first (idles ++ fresh) none) f)
unfolding expire
expire-Expired fuel now age f actives [] [] enough s h z = record {
  gone = [];
  kept = [];
  parts = refl;
  old_gone = tt;
  young_kept = tt;
  after = f;
  returns = refl;
  sound = s;
}
expire-Expired zero now age f actives [] (x ∷ xs) enough s h z = absurd (omega (arith, enough))
expire-Expired (suc fuel) now age f actives [] (x ∷ xs) enough s h z =
    let r = age_entry_age now (f.entry x) (s.entries x) in
    let young : leb flow_idle_timeout r.0.0 ≡ false = ground (arith, r.1.1.0, z.0) in
    record {
      gone = [];
      kept = [];
      parts = refl;
      old_gone = tt;
      young_kept = tt;
      after = put_entry x r.0.1 f;
      returns = rw (expire, r.1.0, young) refl;
      sound = put_entry-Sound x r.0.1 f actives (x ∷ xs) r.1.1.1 s;
    }
expire-Expired zero now age f actives (x ∷ xs) fresh enough s h z = absurd (omega (arith, enough))
expire-Expired (suc fuel) now age f actives (x ∷ xs) fresh enough s h z =
    let r = age_entry_age now (f.entry x) (s.entries x) in
    elim (Bool-cases (leb flow_idle_timeout r.0.0)) [
      | inl old ↦
          let aged = put_entry x r.0.1 f in
          let g = drop_flow x aged in
          let apart = s.idle_lists.holds.distinct.0 in
          let parts = Apart-split x xs fresh apart in
          let same : (q : ℕ) → q ≢ x → g.entry q ≡ f.entry q =
            λ q n. dropped_entries x aged q ∙ update-ne f.entry r.0.1 x q (λ e. n (sym e)) in
          let rest =
            expire-Expired fuel now age g actives xs fresh (omega (arith, enough))
              (drop_flow-Sound x aged actives (xs ++ fresh)
                (put_entry-Sound x r.0.1 f actives (x ∷ (xs ++ fresh)) r.1.1.1 s))
              (ages_kept now age x f g xs same parts.0 h.1)
              (ages_kept now (λ q. 0) x f g fresh same parts.1 z) in
          record {
            gone = x ∷ rest.gone;
            kept = rest.kept;
            parts = ap (λ (l : List ℕ). x ∷ l) rest.parts;
            old_gone = (ground (arith, r.1.1.0, h.0), rest.old_gone);
            young_kept = rest.young_kept;
            after = rest.after;
            returns =
                expire_turn fuel now x f r.0 _ r.1.0 old s.idle_lists.holds.chain.1 ∙ rest.returns;
            sound = rest.sound;
          }
      | inr young ↦ record {
        gone = [];
        kept = x ∷ xs;
        parts = refl;
        old_gone = tt;
        young_kept = ground (arith, r.1.1.0, h.0);
        after = put_entry x r.0.1 f;
        returns = rw (expire, r.1.0, young) refl;
        sound = put_entry-Sound x r.0.1 f actives (x ∷ (xs ++ fresh)) r.1.1.1 s;
      }
    ]
