-- ===== src/Forward/Once.antt =====
-- The loop of Smf::ProcessPacket forwards a packet at most once on each interface.
use nrlsmf.Base.{
  ℕ, ◌+◌, ◌≡◌, ◌≤◌, refl, sym, ap, subst, inl, inr, Bool, true, false, ◌&&◌, ◌||◌, List, [], ◌∷◌,
  ◌++◌, arith, ◌==◌, Bool-cases,
}
use nrlsmf.Forward.Packet.{Ident, Config}
use nrlsmf.Forward.Plane.{
  Detector, Plane, Associate, Request, Sweep, choose, is_duplicate_pkt, check_duplicate, put_dst,
  own_capture, chosen, turn, turn_check, sweep,
}
use nrlsmf.Forward.Settings.{put_dst-plane, turn_check-dst}
use nrlsmf.Forward.Memory.{
  Remembers, Budget, lower-Budget, detector_of, detector_of-count_asym, detector_of-count_dups,
  is_duplicate_pkt-Budget, is_duplicate_pkt_spends,
}

abbrev pub one_if : Bool → ℕ
one_if true = 1
one_if false = 0

-- How often a number is in a list.
abbrev pub count_in : ℕ → List ℕ → ℕ
count_in x [] = 0
count_in x (y ∷ ys) = one_if (y == x) + count_in x ys

count_in-snoc :
    (x y : ℕ) (ys : List ℕ) → count_in x (ys ++ (y ∷ [])) ≡ count_in x ys + one_if (y == x)
count_in-snoc x y [] = omega arith
count_in-snoc x y (z ∷ zs) = omega (arith, count_in-snoc x y zs)

module _ (D : Detector) (x : ℕ) (id : Ident) (allowed : Ident → Bool)
    (m : Remembers D id allowed) where
  -- On the interface `x`, `spent` and what may still be forwarded is within `total`.
  abbrev pub Bounded : Plane D → ℕ → ℕ → Type 0
  Bounded p spent total = Budget D id allowed m (detector_of D x p) spent total

  pub same-Budget :
      (d f : D.State) (e n : ℕ) → f ≡ d → Budget D id allowed m d e n → Budget D id allowed m f e n
  same-Budget d f e n h b = subst (λ g. Budget D id allowed m g e n) (sym h) b

  module _ (c : Config) (q : Request) (j : Ident) (multicast : Bool) (ttl : ℕ) where
    chosen_lem :
        (a : Associate) (s : Sweep D)
        → detector_of D x (chosen D c q j multicast ttl a s).plane ≡ detector_of D x s.plane
    unfolding chosen
    chosen_lem a s = elim (Bool-cases (choose c q.mac multicast a.relay s.asym s.ecds_block).asym) [
      | inl e ↦ rw e (detector_of-count_asym D x q.src s.plane)
      | inr e ↦ rw e refl
    ]

    chosen-Bounded :
        (a : Associate) (s : Sweep D) (e n : ℕ)
        → Bounded s.plane e n
        → Bounded (chosen D c q j multicast ttl a s).plane e n
    chosen-Bounded a s e n = same-Budget _ _ e n (chosen_lem a s)

    module _ (ok : allowed j ≡ true) where
      check_duplicate-Bounded :
          (y : ℕ) (wish : Bool) (s : Sweep D) (e n : ℕ)
          → Bounded s.plane e n
          → Bounded (check_duplicate D c q j multicast ttl y wish s).1.plane e n
      unfolding check_duplicate
      check_duplicate-Bounded y wish s e n b =
          let r = is_duplicate_pkt D y q.now j s.plane in
          let after = is_duplicate_pkt-Budget D x id allowed m y q.now j s.plane e n ok b in
          elim (Bool-cases r.0) [
            | inl t ↦ rw t (same-Budget _ _ e n (detector_of-count_dups D x y r.1) after)
            | inr t ↦ rw t after
          ]

      turn_check-Bounded :
          (a : Associate) (s : Sweep D) (e n : ℕ)
          → Bounded s.plane e n
          → Bounded (turn_check D c q j multicast ttl a s).1.plane e n
      unfolding turn_check
      turn_check-Bounded a s e n b =
          let k = choose c q.mac multicast a.relay s.asym s.ecds_block in
          let before = chosen-Bounded a s e n b in
          elim (Bool-cases (k.iface_forward || (k.update_dup && a.target == q.src))) [
            | inl t ↦ rw t (
                check_duplicate-Bounded a.target k.iface_forward (chosen D c q j multicast ttl a s)
                  e n before)
            | inr t ↦ rw t before
          ]

      put_dst-Bounded :
          (a : Associate) (s : Sweep D) (e n : ℕ)
          → Bounded (turn_check D c q j multicast ttl a s).1.plane e n
          → Bounded (turn D c q j multicast ttl a s).plane e n
      unfolding turn
      put_dst-Bounded a s e n =
          let r = turn_check D c q j multicast ttl a s in
          same-Budget _ _ e n
            (ap (detector_of D x) (put_dst-plane D c q j multicast ttl a.target r.0 r.1))

      -- No packet gives back what may still be forwarded of these ids.
      pub sweep-Bounded :
          (as' : List Associate) (s : Sweep D) (e n : ℕ)
          → Bounded s.plane e n
          → Bounded (sweep D c q j multicast ttl as' s).1.plane e n
      unfolding sweep
      sweep-Bounded [] s e n b = b
      sweep-Bounded (a ∷ rest) s e n b =
          let checked = turn_check-Bounded a s e n b in
          elim (Bool-cases (own_capture D c q j multicast ttl)) [
            | inl t ↦ rw t checked
            | inr t ↦ rw t (
                sweep-Bounded rest (turn D c q j multicast ttl a s) e n
                  (put_dst-Bounded a s e n checked))
          ]

  -- A packet of these ids spends what it forwards.
  module _ (c : Config) (q : Request) (multicast : Bool) (ttl : ℕ) (ok : allowed id ≡ true) where
    check_duplicate_spends :
        (wish : Bool) (s : Sweep D) (e n : ℕ)
        → Bounded s.plane e n
        → (check_duplicate D c q id multicast ttl x wish s).0 ≡ true
        → Bounded (check_duplicate D c q id multicast ttl x wish s).1.plane (e + 1) n
    unfolding check_duplicate
    check_duplicate_spends wish s e n b =
        elim (Bool-cases (is_duplicate_pkt D x q.now id s.plane).0) [
          | inl t ↦ rw t (λ h. absurd (ground (arith, h)))
          | inr t ↦ rw t (λ h. is_duplicate_pkt_spends D x id allowed m q.now s.plane e n ok t b)
        ]

    turn_check_spends :
        (a : Associate) (s : Sweep D) (e n : ℕ)
        → a.target ≡ x
        → Bounded s.plane e n
        → (turn_check D c q id multicast ttl a s).0 ≡ true
        → Bounded (turn_check D c q id multicast ttl a s).1.plane (e + 1) n
    unfolding turn_check chosen
    turn_check_spends a s e n same b =
        let k = choose c q.mac multicast a.relay s.asym s.ecds_block in
        let before = chosen-Bounded c q id multicast ttl a s e n b in
        elim (Bool-cases (k.iface_forward || (k.update_dup && a.target == q.src))) [
          | inl t ↦
              rw (t, same)
                (check_duplicate_spends k.iface_forward (chosen D c q id multicast ttl a s) e n
                  before)
          | inr t ↦ rw t (λ h. absurd (ground (arith, h)))
        ]

    put_dst-count :
        (y : ℕ) (wish : Bool) (s : Sweep D)
        → count_in x (put_dst D c q id multicast ttl y wish s).dst
          ≤ count_in x s.dst + one_if (wish && y == x)
    unfolding put_dst
    put_dst-count y wish s = ground (arith, count_in-snoc x y s.dst)

    -- What has been put into the array is spent.
    turn_spends :
        (a : Associate) (s : Sweep D) (e n : ℕ)
        → Bounded s.plane (e + count_in x s.dst) n
        → let t = turn D c q id multicast ttl a s in Bounded t.plane (e + count_in x t.dst) n
    unfolding turn
    turn_spends a s e n b =
        let r = turn_check D c q id multicast ttl a s in
        let d = detector_of D x (turn D c q id multicast ttl a s).plane in
        let grown = put_dst-count a.target r.0 r.1 in
        let same = ap (count_in x) (turn_check-dst D c q id multicast ttl a s) in
        let done = e + count_in x s.dst in
        elim (Bool-cases (r.0 && a.target == x)) [
          | inl t ↦
              let spent = turn_check_spends a s done n (ground (arith, t)) b (ground (arith, t)) in
              let one : one_if (r.0 && a.target == x) ≡ 1 = rw t refl in
              lower-Budget D id allowed m d (done + 1) _ n (omega (arith, grown, same, one))
                (put_dst-Bounded c q id multicast ttl ok a s (done + 1) n spent)
          | inr t ↦
              let none' : one_if (r.0 && a.target == x) ≡ 0 = rw t refl in
              lower-Budget D id allowed m d done _ n (omega (arith, grown, same, none')) (
                put_dst-Bounded c q id multicast ttl ok a s done n
                  (turn_check-Bounded c q id multicast ttl ok a s done n b))
        ]

    pub sweep_spends :
        (as' : List Associate) (s : Sweep D) (e n : ℕ)
        → Bounded s.plane (e + count_in x s.dst) n
        → let t = (sweep D c q id multicast ttl as' s).1 in Bounded t.plane (e + count_in x t.dst) n
    unfolding sweep
    sweep_spends [] s e n b = b
    sweep_spends (a ∷ rest) s e n b = elim (Bool-cases (own_capture D c q id multicast ttl)) [
      | inl t ↦ rw t (
          subst
            (λ (l : List ℕ).
              Bounded (turn_check D c q id multicast ttl a s).1.plane (e + count_in x l) n)
            (sym (turn_check-dst D c q id multicast ttl a s))
            (turn_check-Bounded c q id multicast ttl ok a s (e + count_in x s.dst) n b))
      | inr t ↦
          rw t (sweep_spends rest (turn D c q id multicast ttl a s) e n (turn_spends a s e n b))
    ]
