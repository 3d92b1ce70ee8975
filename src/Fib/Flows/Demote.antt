-- ===== src/Fib/Flows/Demote.antt =====
-- The first loop of PruneFlowList: active flows that have come of age become idle.
use mathlib.Core.List.{append-nil, append_assoc}
use nrlsmf.Base.{
  ℕ, zero, suc, ◌≤◌, ◌<◌, ◌≡◌, ◌≢◌, refl, sym, ap, subst, ◌∙◌, inl, inr, Bool-cases, Option, none,
  some, List, [], ◌∷◌, ◌++◌, arith, All, All-snoc, length, leb, word,
}
use nrlsmf.Dpd.Links.{update-ne}
use nrlsmf.Dpd.Links.Seg.{Apart-split, first}
use nrlsmf.Fib.Entry.Times.{entry_age, age_entry_age, refresh_entry_fresh}
use nrlsmf.Fib.Flows.{FlowFib, put_entry, demote, flow_active_timeout}
use nrlsmf.Fib.Flows.Sound.{
  Sound, put_entry-Sound, moved, moved-Sound, deactivate_flow-moved, moved_others, moved_self,
}
use nrlsmf.Fib.Flows.Turns.{HaveAges, StartsBelow, ages_kept, demote_turn}

-- The result of the first loop, from idle entries `idles` and those that it has moved, `fresh`.
pub record Demoted (now : ℕ) (age idle_age : ℕ → ℕ) (actives idles fresh : List ℕ)
    (r : Option FlowFib) : Type 0 where
  pub old : List ℕ
  pub young : List ℕ
  pub parts : actives ≡ old ++ young
  pub old_moved : All (λ q. flow_active_timeout ≤ age q) old
  pub young_stay : StartsBelow flow_active_timeout age young
  pub after : FlowFib
  pub returns : r ≡ some after
  pub sound : Sound after young (idles ++ (fresh ++ old))
  pub idle_ages : HaveAges now idle_age after idles
  pub fresh_ages : HaveAges now (λ q. 0) after (fresh ++ old)

pub demote-Demoted :
    (fuel now : ℕ) (age idle_age : ℕ → ℕ) (f : FlowFib) (actives idles fresh : List ℕ)
    → now < word
    → length actives ≤ fuel
    → Sound f actives (idles ++ fresh)
    → HaveAges now age f actives
    → HaveAges now idle_age f idles
    → HaveAges now (λ q. 0) f fresh
    → Demoted now age idle_age actives idles fresh (demote fuel now (first actives none) f)
unfolding demote
demote-Demoted fuel now age idle_age f [] idles fresh small enough s h i z =
    let none_more : fresh ++ [] ≡ fresh = append-nil fresh in
    record {
      old = [];
      young = [];
      parts = refl;
      old_moved = tt;
      young_stay = tt;
      after = f;
      returns = refl;
      sound = rw none_more s;
      idle_ages = i;
      fresh_ages = rw none_more z;
    }
demote-Demoted zero now age idle_age f (x ∷ xs) idles fresh small enough s h i z =
    absurd (omega (arith, enough))
demote-Demoted (suc fuel) now age idle_age f (x ∷ xs) idles fresh small enough s h i z =
    let r = age_entry_age now (f.entry x) (s.entries x) in
    let apart = Apart-split x xs (idles ++ fresh) s.apart.0 in
    let others = Apart-split x idles fresh apart.1 in
    let aged = put_entry x r.0.1 f in
    let put = put_entry-Sound x r.0.1 f (x ∷ xs) (idles ++ fresh) r.1.1.1 s in
    let same : (q : ℕ) → q ≢ x → aged.entry q ≡ f.entry q =
      λ q n. update-ne f.entry r.0.1 x q (λ e. n (sym e)) in
    elim (Bool-cases (leb flow_active_timeout r.0.0)) [
      | inl old ↦
          let e = refresh_entry_fresh now (aged.entry x) small (put.entries x) in
          let g = moved x e.0 aged in
          let gone : (q : ℕ) → q ≢ x → g.entry q ≡ f.entry q =
            λ q n. moved_others x e.0 aged q n ∙ same q n in
          let zero_age : entry_age now (g.entry x) ≡ 0 =
            ap (entry_age now) (moved_self x e.0 aged) ∙ e.1.1.0 in
          let rest =
            demote-Demoted fuel now age idle_age g xs idles (fresh ++ (x ∷ [])) small
              (omega (arith, enough))
              (subst (Sound g xs) (append_assoc idles fresh (x ∷ []))
                (moved-Sound x e.0 aged xs (idles ++ fresh) e.1.1.1 put))
              (ages_kept now age x f g xs gone apart.0 h.1)
              (ages_kept now idle_age x f g idles gone others.0 i)
              (All-snoc (λ q. entry_age now (g.entry q) ≡ 0) x fresh
                (ages_kept now (λ q. 0) x f g fresh gone others.1 z) zero_age) in
          let order : (fresh ++ (x ∷ [])) ++ rest.old ≡ fresh ++ (x ∷ rest.old) =
            append_assoc fresh (x ∷ []) rest.old in
          record {
            old = x ∷ rest.old;
            young = rest.young;
            parts = ap (λ (l : List ℕ). x ∷ l) rest.parts;
            old_moved = (ground (arith, r.1.1.0, h.0), rest.old_moved);
            young_stay = rest.young_stay;
            after = rest.after;
            returns =
                demote_turn fuel now x f g r.0 _ r.1.0 old
                  (deactivate_flow-moved now x e.0 aged e.1.0) s.active_lists.holds.chain.1
                ∙ rest.returns;
            sound = rw⁻¹ order rest.sound;
            idle_ages = rest.idle_ages;
            fresh_ages = rw⁻¹ order rest.fresh_ages;
          }
      | inr young ↦ record {
        old = [];
        young = x ∷ xs;
        parts = refl;
        old_moved = tt;
        young_stay = ground (arith, r.1.1.0, h.0);
        after = aged;
        returns = rw (demote, r.1.0, young) refl;
        sound = rw (append-nil fresh) put;
        idle_ages = ages_kept now idle_age x f aged idles same others.0 i;
        fresh_ages = rw (append-nil fresh) (ages_kept now (λ q. 0) x f aged fresh same others.1 z);
      }
    ]
