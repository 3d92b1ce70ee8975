-- ===== src/Forward/Memory.antt =====
-- Duplicate detectors that remember one packet, and what the steps of Smf::ProcessPacket do to them.
use nrlsmf.Base.{
  ℕ, ◌+◌, ◌≡◌, ◌≤◌, refl, sym, ap, ◌∙◌, subst, inl, inr, Bool, true, false, arith, ◌==◌,
  if◌then◌else◌, Bool-cases,
}
use nrlsmf.Forward.Packet.{Ident}
use nrlsmf.Forward.Plane.{
  Detector, Iface, Plane, set_iface, count_recv, count_mrcv, count_dups, count_asym, count_fwd,
  is_duplicate_pkt,
}

-- While only ids that are `allowed` are asked about, a detector that is `Ready` stays so, what it
-- knows of `id` it goes on knowing, and when it reports no duplicate of `id`, it did not know of it
-- and knows from then on.
pub record Remembers (D : Detector) (id : Ident) (allowed : Ident → Bool) : Type 1 where
  pub Ready : D.State → Type 0
  pub known : D.State → Bool
  pub stays :
      (now : ℕ) (j : Ident) (s : D.State)
      → allowed j ≡ true
      → Ready s
      → Ready (D.is_duplicate now j s).1
  pub keeps :
      (now : ℕ) (j : Ident) (s : D.State)
      → allowed j ≡ true
      → Ready s
      → known s ≡ true
      → known (D.is_duplicate now j s).1 ≡ true
  pub learns :
      (now : ℕ) (s : D.State)
      → Ready s
      → (D.is_duplicate now id s).0 ≡ false
      → (known s ≡ false) × (known (D.is_duplicate now id s).1 ≡ true)

module _ (D : Detector) (id : Ident) (allowed : Ident → Bool) (m : Remembers D id allowed) where
  -- How often a packet of the ids may still be forwarded.
  abbrev pub weight : D.State → ℕ
  weight d = if m.known d then 0 else 1

  -- What has been forwarded, and what may still be, is within `total`.
  pub record Budget (d : D.State) (spent total : ℕ) : Type 0 where
    pub ready : m.Ready d
    pub within : spent + weight d ≤ total

  pub lower-Budget : (d : D.State) (c e n : ℕ) → e ≤ c → Budget d c n → Budget d e n
  lower-Budget d c e n h b = record { ready = b.ready; within = omega (arith, h, b.within) }

  keeps_weight :
      (now : ℕ) (j : Ident) (d : D.State)
      → allowed j ≡ true
      → m.Ready d
      → weight (D.is_duplicate now j d).1 ≤ weight d
  keeps_weight now j d a r = elim (Bool-cases (m.known d)) [
    | inl h ↦ rw (h, m.keeps now j d a r h) (omega arith)
    | inr h ↦ rw h (elim (Bool-cases (m.known (D.is_duplicate now j d).1)) [
      | inl g ↦ rw g (omega arith)
      | inr g ↦ rw g (omega arith)
    ])
  ]

  is_duplicate-Budget :
      (now : ℕ) (j : Ident) (d : D.State) (c n : ℕ)
      → allowed j ≡ true
      → Budget d c n
      → Budget (D.is_duplicate now j d).1 c n
  is_duplicate-Budget now j d c n a b = record {
    ready = m.stays now j d a b.ready;
    within = omega (arith, keeps_weight now j d a b.ready, b.within);
  }

  is_duplicate_spends :
      (now : ℕ) (d : D.State) (c n : ℕ)
      → allowed id ≡ true
      → (D.is_duplicate now id d).0 ≡ false
      → Budget d c n
      → Budget (D.is_duplicate now id d).1 (c + 1) n
  is_duplicate_spends now d c n a new b =
      let h = m.learns now d b.ready new in
      let before : weight d ≡ 1 = rw h.0 refl in
      let after : weight (D.is_duplicate now id d).1 ≡ 0 = rw h.1 refl in
      record { ready = m.stays now id d a b.ready; within = omega (arith, before, after, b.within) }

module _ (D : Detector) (x : ℕ) where
  abbrev pub detector_of : Plane D → D.State
  detector_of p = (p.ifaces x).detector

  there : (y : ℕ) (f : Iface D) (p : Plane D) → x ≡ y → detector_of (set_iface D y f p) ≡ f.detector
  unfolding set_iface
  there y f p same = let h : (x == y) ≡ true = ground (arith, same) in rw (h, detector_of) refl

  elsewhere :
      (y : ℕ) (f : Iface D) (p : Plane D)
      → (x == y) ≡ false
      → detector_of (set_iface D y f p) ≡ detector_of p
  unfolding set_iface
  elsewhere y f p h = rw (h, detector_of) refl

  counts_only :
      (y : ℕ) (f : Iface D) (p : Plane D)
      → f.detector ≡ (p.ifaces y).detector
      → detector_of (set_iface D y f p) ≡ detector_of p
  counts_only y f p e = elim (Bool-cases (x == y)) [
    | inl h ↦
        let same : x ≡ y = ground arith in
        there y f p same ∙ e ∙ ap (λ (z : ℕ). (p.ifaces z).detector) (sym same)
    | inr h ↦ elsewhere y f p h
  ]

  -- Counting changes no detector.
  pub detector_of-count_recv :
      (y : ℕ) (p : Plane D) → detector_of (count_recv D y p) ≡ detector_of p
  unfolding count_recv
  detector_of-count_recv y p = counts_only y _ p refl

  pub detector_of-count_mrcv :
      (y : ℕ) (p : Plane D) → detector_of (count_mrcv D y p) ≡ detector_of p
  unfolding count_mrcv
  detector_of-count_mrcv y p = counts_only y _ p refl

  pub detector_of-count_dups :
      (y : ℕ) (p : Plane D) → detector_of (count_dups D y p) ≡ detector_of p
  unfolding count_dups
  detector_of-count_dups y p = counts_only y _ p refl

  pub detector_of-count_asym :
      (y : ℕ) (p : Plane D) → detector_of (count_asym D y p) ≡ detector_of p
  unfolding count_asym
  detector_of-count_asym y p = counts_only y _ p refl

  pub detector_of-count_fwd : (y : ℕ) (p : Plane D) → detector_of (count_fwd D y p) ≡ detector_of p
  unfolding count_fwd
  detector_of-count_fwd y p = counts_only y _ p refl

  module _ (id : Ident) (allowed : Ident → Bool) (m : Remembers D id allowed) where
    -- A check for duplicates, on any interface and of any ids allowed, keeps the budget.
    pub is_duplicate_pkt-Budget :
        (y now : ℕ) (j : Ident) (p : Plane D) (c n : ℕ)
        → allowed j ≡ true
        → Budget D id allowed m (detector_of p) c n
        → Budget D id allowed m (detector_of (is_duplicate_pkt D y now j p).1) c n
    unfolding is_duplicate_pkt
    is_duplicate_pkt-Budget y now j p c n a b =
        let d = (p.ifaces y).detector in
        let f : Iface D = record (p.ifaces y) { detector = (D.is_duplicate now j d).1 } in
        elim (Bool-cases (x == y)) [
          | inl h ↦
              let same : x ≡ y = ground arith in
              subst (λ e. Budget D id allowed m e c n)
                (sym (
                  there y f p same
                  ∙ ap (λ (z : ℕ). (D.is_duplicate now j (p.ifaces z).detector).1) (sym same)))
                (is_duplicate-Budget D id allowed m now j (detector_of p) c n a b)
          | inr h ↦ subst (λ e. Budget D id allowed m e c n) (sym (elsewhere y f p h)) b
        ]

    -- On the interface itself, a check that finds no duplicate of the ids may be spent.
    pub is_duplicate_pkt_spends :
        (now : ℕ) (p : Plane D) (c n : ℕ)
        → allowed id ≡ true
        → (is_duplicate_pkt D x now id p).0 ≡ false
        → Budget D id allowed m (detector_of p) c n
        → Budget D id allowed m (detector_of (is_duplicate_pkt D x now id p).1) (c + 1) n
    unfolding is_duplicate_pkt
    is_duplicate_pkt_spends now p c n a new b =
        let d = detector_of p in
        let f : Iface D = record (p.ifaces x) { detector = (D.is_duplicate now id d).1 } in
        subst (λ e. Budget D id allowed m e (c + 1) n) (sym (there x f p refl))
          (is_duplicate_spends D id allowed m now d c n a new b)
