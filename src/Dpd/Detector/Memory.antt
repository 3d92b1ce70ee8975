-- ===== src/Dpd/Detector/Memory.antt =====
-- What SmfDpdWindow remembers of one packet of a flow, while packets of the flow and of other flows
-- arrive.
use nrlsmf.Base.{
  ℕ, suc, ◌^◌, ◌≤◌, ◌<◌, ◌≡◌, refl, sym, ap, ◌∙◌, subst, ◌⊎◌, inl, inr, Bool, true, false, Option,
  none, some, List, arith, Bool-cases, Option-cases, ltb,
}
use nrlsmf.Dpd.Tree.{KeyTree, TreeLaws}
use nrlsmf.Dpd.Mask.{SlidingMask, Laws}
use nrlsmf.Dpd.Flows.{find_flow}
use nrlsmf.Dpd.Window.Ideal.{Ideal, receive, only}
use nrlsmf.Dpd.Window.Arc.{InArc, Held, Held-receive, Held-only, still_duplicate}
use nrlsmf.Dpd.Window.Memory.{newest, repeats, seen_is_duplicate}
use nrlsmf.Dpd.Window.Stream.{init_bounds}
use nrlsmf.Dpd.Window.Refine.{is_duplicate-Refines}
use nrlsmf.Dpd.Window.{Window, window_init}
use nrlsmf.Dpd.Window
use nrlsmf.Dpd.Detector.{id_value, DpdWindow, dpd_is_duplicate, new_flow}
use nrlsmf.Dpd.Detector.Verdicts.{Tracks, known_follows, first_follows}
use nrlsmf.Dpd.Detector.Asked.{dpd_is_duplicate-Asked}
use nrlsmf.Dpd.Detector.Others.{IsFresh, IsNamed, Asked-IsNamed, Asked-size}

module _ (T : KeyTree) (tree : TreeLaws T) (M : SlidingMask) (laws : Laws M) (k b : ℕ)
    (fid : List ℕ) (fbits : ℕ) where
  open T use {Key, key, key_eq, find}

  -- The flow is listed, with a window of `n` numbers, of which the newest is in the arc from `b`.
  pub record Kept (n : ℕ) (d : DpdWindow T M) : Type 0 where
    pub n0 : 0 < n
    pub hk : k ≤ 31
    pub hn : n ≤ 2 ^ k
    pub ideal : Ideal
    pub last : ℕ
    pub tracks : Tracks T tree M laws d fid fbits k n n0 hk hn ideal
    pub held : Held k n b ideal last

  pub record Ready (n : ℕ) (d : DpdWindow T M) : Type 0 where
    pub sized : d.window_size ≡ n
    pub named : IsNamed T tree M d
    pub flow : (find (key fid fbits) d.flow_list.tree ≡ none) ⊎ Kept n d

  -- Whether the number `q` would be a duplicate.
  unfoldable pub is_known : ℕ → DpdWindow T M → Bool
  is_known q d = elim (find (key fid fbits) d.flow_list.tree) [
    | none ↦ false
    | some x ↦ (Window.is_duplicate M q (d.flow_list.item x).window).0
  ]

  is_known_lem :
      (n q : ℕ) (d : DpdWindow T M) (t : Kept n d)
      → n < 2 ^ 31
      → q < 2 ^ suc k
      → is_known q d ≡ (receive k n q t.ideal).0
  unfolding is_known
  is_known_lem n q d t hs hq =
      rw (t.tracks.found, is_known)
        (is_duplicate-Refines M laws k n t.n0 t.hk t.hn hs q _ t.ideal hq t.tracks.models).0

  module _ (n : ℕ) (n0 : 0 < n) (hs : n < 2 ^ 31) (hb : b < 2 ^ suc k)
      (alloc : DpdWindow T M → Option ℕ) (now : ℕ) (pid : List ℕ) (d : DpdWindow T M)
      (hx : InArc k n b (id_value pid (suc k))) where
    abbrev x : ℕ
    x = id_value pid (suc k)

    abbrev answer : Bool × DpdWindow T M
    answer = dpd_is_duplicate T M now fid fbits pid (suc k) (alloc d) d

    -- No duplicate, and the flow is listed and knows the number.
    abbrev Enters : ℕ → Type 0
    Enters m = (answer.0 ≡ false) × (Kept m answer.1 × (is_known x answer.1 ≡ true))

    follows :
        (t : Kept n d)
        → (answer.0 ≡ (receive k n x t.ideal).0)
          × Tracks T tree M laws answer.1 fid fbits k n t.n0 t.hk t.hn (receive k n x t.ideal).1
    follows t =
        known_follows T tree M laws d fid fbits k n t.n0 t.hk t.hn now pid (alloc d) t.ideal hs
          hx.small t.tracks

    abbrev state_after : Kept n d → Kept n answer.1
    state_after t = record {
      n0 = t.n0;
      hk = t.hk;
      hn = t.hn;
      ideal = (receive k n x t.ideal).1;
      last = newest k x t.last;
      tracks = (follows t).1;
      held = Held-receive k n b t.n0 t.hn hb x t.last t.ideal hx t.held (follows t).1.models.window;
    }

    Kept-first :
        (y : ℕ) (w : Window M)
        → find (key fid fbits) d.flow_list.tree ≡ none
        → alloc d ≡ some y
        → window_init M (suc k) d.window_size d.window_past_max ≡ some w
        → 0 < d.window_size
        → d.window_size < 2 ^ 31
        → InArc k d.window_size b x
        → Enters d.window_size
    unfolding receive
    Kept-first y w e a made m0 ms arc =
        let m = d.window_size in
        let bounds = init_bounds M k m d.window_past_max w made in
        let f = first_follows T tree M laws d fid fbits k now y pid w m0 ms hx.small made e in
        let r = dpd_is_duplicate T M now fid fbits pid (suc k) (some y) d in
        let h = Held-only k m b m0 bounds.1 hb x arc f.1.models.window in
        let t : Kept m r.1 = record {
          n0 = m0;
          hk = bounds.0;
          hn = bounds.1;
          ideal = only x;
          last = x;
          tracks = f.1;
          held = h;
        } in
        subst
          (λ (o : Option ℕ).
            let s = dpd_is_duplicate T M now fid fbits pid (suc k) o d in
            (s.0 ≡ false) × (Kept m s.1 × (is_known x s.1 ≡ true)))
          (sym a)
          (
            f.0,
            (
              t,
              is_known_lem m x r.1 t ms arc.small
                  ∙ seen_is_duplicate k m m0 bounds.1 x x (only x) arc.small refl h.within h.marked,
            ),
          )

    first_sized-Kept :
        (y : ℕ) (w : Window M)
        → find (key fid fbits) d.flow_list.tree ≡ none
        → alloc d ≡ some y
        → window_init M (suc k) d.window_size d.window_past_max ≡ some w
        → d.window_size ≡ n
        → Enters n
    first_sized-Kept y w e a made sized =
        subst (λ (m : ℕ). 0 < m → m < 2 ^ 31 → InArc k m b x → Enters m) sized
          (Kept-first y w e a made) n0 hs hx

    refused : find (key fid fbits) d.flow_list.tree ≡ none → alloc d ≡ none → answer ≡ (true, d)
    refused e a =
        unfold dpd_is_duplicate find_flow in
        elim (Bool-cases (ltb 32 (suc k))) [
          | inl h ↦ rw (h, dpd_is_duplicate) refl
          | inr h ↦ rw (h, e, a, dpd_is_duplicate) refl
        ]

    misfit :
        (y : ℕ)
        → find (key fid fbits) d.flow_list.tree ≡ none
        → alloc d ≡ some y
        → window_init M (suc k) d.window_size d.window_past_max ≡ none
        → answer ≡ (true, d)
    misfit y e a made =
        unfold dpd_is_duplicate find_flow new_flow in
        elim (Bool-cases (ltb 32 (suc k))) [
          | inl h ↦ rw (h, dpd_is_duplicate) refl
          | inr h ↦ rw (h, e, a, made, dpd_is_duplicate, new_flow) refl
        ]

    -- A flow that is not listed stays so, or is listed with the number.
    absent_cases :
        find (key fid fbits) d.flow_list.tree ≡ none
        → d.window_size ≡ n
        → (answer ≡ (true, d)) ⊎ Enters n
    absent_cases e sized = elim (Option-cases (alloc d)) [
      | inl a ↦ inl (refused e a)
      | inr (y, a) ↦ elim (Option-cases (window_init M (suc k) d.window_size d.window_past_max)) [
        | inl made ↦ inl (misfit y e a made)
        | inr (w, made) ↦ inr (first_sized-Kept y w e a made sized)
      ]
    ]

    Kept-flow :
        d.window_size ≡ n
        → (find (key fid fbits) d.flow_list.tree ≡ none) ⊎ Kept n d
        → (find (key fid fbits) answer.1.flow_list.tree ≡ none) ⊎ Kept n answer.1
    Kept-flow sized (inr t) = inr (state_after t)
    Kept-flow sized (inl e) = elim (absent_cases e sized) [
      | inl s ↦ inl (ap (λ r. find (key fid fbits) r.1.flow_list.tree) s ∙ e)
      | inr h ↦ inr h.1.0
    ]

    -- The detector stays sound.
    pub dpd_is_duplicate-Ready : IsFresh T tree M alloc → Ready n d → Ready n answer.1
    dpd_is_duplicate-Ready fresh r =
        let a = dpd_is_duplicate-Asked T tree M now fid fbits pid (suc k) d (alloc d) in
        record {
          sized = Asked-size T tree M alloc fresh (key fid fbits) d answer.1 r.named a ∙ r.sized;
          named = Asked-IsNamed T tree M alloc fresh (key fid fbits) d answer.1 r.named a;
          flow = Kept-flow r.sized r.flow;
        }

    unknown : find (key fid fbits) d.flow_list.tree ≡ none → (q : ℕ) → is_known q d ≡ false
    unfolding is_known
    unknown e q = rw (e, is_known) refl

    -- A number that is no duplicate was not known, and is known from then on.
    learns_flow :
        (find (key fid fbits) d.flow_list.tree ≡ none) ⊎ Kept n d
        → d.window_size ≡ n
        → answer.0 ≡ false
        → (is_known x d ≡ false) × (is_known x answer.1 ≡ true)
    learns_flow (inl e) sized new = elim (absent_cases e sized) [
      | inl s ↦ absurd (let t : answer.0 ≡ true = ap (λ r. r.0) s in ground (arith, t, new))
      | inr h ↦ (unknown e x, h.1.1)
    ]
    learns_flow (inr t) sized new = (
      is_known_lem n x d t hs hx.small ∙ sym (follows t).0 ∙ new,
      is_known_lem n x answer.1 (state_after t) hs hx.small
          ∙ repeats k n t.n0 t.hn x t.ideal hx.small t.tracks.models.window,
    )

    pub learns :
        Ready n d → answer.0 ≡ false → (is_known x d ≡ false) × (is_known x answer.1 ≡ true)
    learns r = learns_flow r.flow r.sized

    -- What is known stays known.
    keeps_flow :
        (q : ℕ)
        → InArc k n b q
        → (find (key fid fbits) d.flow_list.tree ≡ none) ⊎ Kept n d
        → is_known q d ≡ true
        → is_known q answer.1 ≡ true
    keeps_flow q hq (inl e) old = absurd (let t = unknown e q in ground (arith, t, old))
    keeps_flow q hq (inr t) old =
        is_known_lem n q answer.1 (state_after t) hs hq.small
        ∙ still_duplicate k n b t.n0 t.hn hb q x t.last t.ideal hq hx t.held
            (follows t).1.models.window (sym (is_known_lem n q d t hs hq.small) ∙ old)

    pub keeps_known :
        (q : ℕ) → InArc k n b q → Ready n d → is_known q d ≡ true → is_known q answer.1 ≡ true
    keeps_known q hq r = keeps_flow q hq r.flow
