-- ===== src/Dpd/Window/Arc.antt =====
-- The ideal window on numbers that lie among `n` consecutive ones: it forgets none of them.
use nrlsmf.Base.{
  ℕ, suc, ◌-◌, ◌^◌, ◌≤◌, ◌<◌, ◌≡◌, ◌⊎◌, inl, inr, true, some, arith, ltb, Bool-cases, subst, sym,
  refl, ◌==◌, ==_iff,
}
use nrlsmf.Dpd.Ring.{ahead, ahead_cases}
use nrlsmf.Dpd.Window.Ideal.{Ideal, receive, against, only, Within, IsWindow}
use nrlsmf.Dpd.Window.Memory.{newest, keeps, seen_is_duplicate, top_after}
use native.Mathlib.Nat.{pow-suc}

module _ (k n b : ℕ) where
  -- A number among the `n` from `b` on.
  pub record InArc (r : ℕ) : Type 0 where
    pub small : r < 2 ^ suc k
    pub near : ahead k r b < n

  -- A window after numbers of the arc: the newest is one of them, and is marked.
  pub record Held (v : Ideal) (l : ℕ) : Type 0 where
    pub top_is : v.top ≡ some l
    pub arc : InArc l
    pub marked : v.seen l ≡ true
    pub within : Within k n (some l) v

module _ (k n b : ℕ) (n0 : 0 < n) (hn : n ≤ 2 ^ k) (hb : b < 2 ^ suc k) where
  -- Distances in the arc are those of the offsets.
  offsets :
      (r s : ℕ)
      → InArc k n b r
      → InArc k n b s
      → ((ahead k s b ≤ ahead k r b) × (ahead k r s ≡ ahead k r b - ahead k s b))
        ⊎ ((ahead k r b < ahead k s b) × (ahead k r s ≡ 2 ^ suc k - (ahead k s b - ahead k r b)))
  offsets r s hr hs = ground (
    arith,
    pow-suc 2 k,
    hr.small,
    hr.near,
    hs.small,
    hs.near,
    ahead_cases k r s hr.small hs.small,
    ahead_cases k r b hr.small hb,
    ahead_cases k s b hs.small hb,
  )

  InArc-newest : (x l : ℕ) → InArc k n b x → InArc k n b l → InArc k n b (newest k x l)
  InArc-newest x l hx hl = elim (Bool-cases (ltb (ahead k x l) (2 ^ k))) [
    | inl e ↦ rw e hx
    | inr e ↦ rw e hl
  ]

  together : (x l : ℕ) → InArc k n b x → InArc k n b l → (ahead k x l < 2 ^ k) ⊎ (ahead k l x < n)
  together x l hx hl = ground (arith, hx.near, hl.near, offsets x l hx hl, offsets l x hl hx)

  seen_lem :
      (q l : ℕ) (v : Ideal)
      → InArc k n b q
      → Held k n b v l
      → (receive k n q v).0 ≡ true
      → v.seen q ≡ true
  unfolding receive against
  seen_lem q l v hq h = rw h.top_is (
      ground (
        arith,
        pow-suc 2 k,
        h.marked,
        hq.small,
        h.arc.small,
        hq.near,
        h.arc.near,
        offsets q l hq h.arc,
        offsets l q h.arc hq,
        ahead_cases k q l hq.small h.arc.small,
      ))

  marked_same :
      (l : ℕ) (v : Ideal) → Held k n b v l → (receive k n l v).1.seen (newest k l l) ≡ true
  unfolding receive against
  marked_same l v h =
      rw h.top_is (ground (arith, h.marked, ahead_cases k l l h.arc.small h.arc.small))

  marked_after :
      (x l : ℕ) (v : Ideal)
      → InArc k n b x
      → Held k n b v l
      → (receive k n x v).1.seen (newest k x l) ≡ true
  unfolding receive against
  marked_after x l v hx h = elim (Bool-cases (x == l)) [
    | inl e ↦
        subst (λ (y : ℕ). (receive k n y v).1.seen (newest k y l) ≡ true) (sym ((==_iff x l).0 e))
          (marked_same l v h)
    | inr e ↦ rw h.top_is (
        ground (
          arith,
          e,
          pow-suc 2 k,
          h.marked,
          hx.near,
          h.arc.near,
          offsets x l hx h.arc,
          offsets l x h.arc hx,
          ahead_cases k x l hx.small h.arc.small,
        ))
  ]

  pub Held-receive :
      (x l : ℕ) (v : Ideal)
      → InArc k n b x
      → Held k n b v l
      → IsWindow k n (receive k n x v).1
      → Held k n b (receive k n x v).1 (newest k x l)
  Held-receive x l v hx h i =
      let t = top_after k n n0 hn x l v h.top_is (together x l hx h.arc) hx.small h.arc.small in
      record {
        top_is = t;
        arc = InArc-newest x l hx h.arc;
        marked = marked_after x l v hx h;
        within = subst (λ o. Within k n o (receive k n x v).1) t i;
      }

  pub Held-only : (q : ℕ) → InArc k n b q → IsWindow k n (only q) → Held k n b (only q) q
  Held-only q hq i = record { top_is = refl; arc = hq; marked = ground arith; within = i }

  -- A number of the arc that is a duplicate is one still after another of the arc arrives.
  pub still_duplicate :
      (q x l : ℕ) (v : Ideal)
      → InArc k n b q
      → InArc k n b x
      → Held k n b v l
      → IsWindow k n (receive k n x v).1
      → (receive k n q v).0 ≡ true
      → (receive k n q (receive k n x v).1).0 ≡ true
  still_duplicate q x l v hq hx h i t =
      let g = Held-receive x l v hx h i in
      seen_is_duplicate k n n0 hn q (newest k x l) _ hq.small g.top_is g.within (
        keeps k n n0 hn x l q v hx.small hq.small h.top_is h.within (seen_lem q l v hq h t)
          (together x l hx h.arc) near_still)
    where
      near_still : ahead k (newest k x l) q < n
      near_still =
          let s = h.within.1 q hq.small (seen_lem q l v hq h t) in
          ground (
            arith,
            pow-suc 2 k,
            s,
            hx.near,
            hq.near,
            h.arc.near,
            offsets x l hx h.arc,
            offsets l x h.arc hx,
            offsets l q h.arc hq,
            offsets x q hx hq,
          )
