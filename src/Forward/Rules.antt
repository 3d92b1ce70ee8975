-- ===== src/Forward/Rules.antt =====
-- On which interfaces the loop of Smf::ProcessPacket forwards: the rules of the relay types.
use nrlsmf.Base.{
  ℕ, ◌≡◌, ◌≤◌, refl, sym, ap, ◌∙◌, subst, inl, inr, Bool, true, false, not, ◌&&◌, ◌||◌, List, [],
  ◌∷◌, arith, ◌==◌, ltb, Bool-cases, All, All-snoc, length, length-append,
}
use nrlsmf.Wire.{Address}
use nrlsmf.Forward.Packet.{Ident, Config}
use nrlsmf.Forward.Plane.{
  Detector, Associate, RelayType, invalid, cf, s_mpr, e_cds, mpr_cds, ns_mpr, Request, Sweep,
  Settings, choose, is_duplicate_pkt, is_selector, check_duplicate, put_dst, own_capture, turn,
  turn_check, sweep,
}
use nrlsmf.Forward.Settings.{settings, settings-turn, settings-turn_check, turn_check-dst}

-- Whether a relay type has this node relay a packet from a neighbour.
abbrev pub relays : Config → Address → Bool → RelayType → Bool
relays c mac multicast cf = c.relay_enabled
relays c mac multicast e_cds = multicast && (c.relay_enabled && c.relay_selected)
relays c mac multicast s_mpr = c.relay_enabled && is_selector c mac
relays c mac multicast invalid = false
relays c mac multicast mpr_cds = false
relays c mac multicast ns_mpr = false

choose-relays :
    (c : Config) (mac : Address) (multicast : Bool) (r : RelayType) (asym ecds : Bool)
    → (choose c mac multicast r asym ecds).iface_forward ≡ relays c mac multicast r
unfolding choose
choose-relays c mac multicast cf asym ecds = refl
choose-relays c mac true e_cds asym ecds = refl
choose-relays c mac false e_cds asym ecds = refl
choose-relays c mac multicast s_mpr asym ecds = refl
choose-relays c mac multicast invalid asym ecds = refl
choose-relays c mac multicast mpr_cds asym ecds = refl
choose-relays c mac multicast ns_mpr asym ecds = refl

module _ (D : Detector) (c : Config) (q : Request) (j : Ident) (multicast : Bool) (ttl : ℕ) where
  check_duplicate-wish :
      (y : ℕ) (wish : Bool) (s : Sweep D)
      → (check_duplicate D c q j multicast ttl y wish s).0 ≡ true
      → wish ≡ true
  unfolding check_duplicate
  check_duplicate-wish y wish s = elim (Bool-cases (is_duplicate_pkt D y q.now j s.plane).0) [
    | inl e ↦ rw e (λ h. absurd (ground (arith, h)))
    | inr e ↦ rw e (λ h. h)
  ]

  turn_check-wish :
      (a : Associate) (s : Sweep D)
      → (turn_check D c q j multicast ttl a s).0 ≡ true
      → relays c q.mac multicast a.relay ≡ true
  unfolding turn_check
  turn_check-wish a s =
      let k = choose c q.mac multicast a.relay s.asym s.ecds_block in
      elim (Bool-cases (k.iface_forward || (k.update_dup && a.target == q.src))) [
        | inl e ↦ rw e (λ h.
            sym (choose-relays c q.mac multicast a.relay s.asym s.ecds_block)
            ∙ check_duplicate-wish a.target k.iface_forward _ h)
        | inr e ↦ rw e (λ h. absurd (ground (arith, h)))
      ]

  -- What holds of the targets that the rules allow holds of all that the loop picks.
  module _ {ℓ} (P : ℕ → Type ℓ) (layered tunnel : Bool) where
    abbrev Allows : Associate → Type ℓ
    Allows a =
        relays c q.mac multicast a.relay ≡ true
        → (layered && a.target == q.src) ≡ false
        → (ltb 1 ttl || tunnel || q.outbound) ≡ true
        → P a.target

    abbrev Stays : Sweep D → Type 0
    Stays s =
        ((s.plane.ifaces q.src).is_layered ≡ layered) × ((s.plane.ifaces q.src).is_tunnel ≡ tunnel)

    put_dst-All :
        (a : Associate) (wish : Bool) (s : Sweep D)
        → Stays s
        → (wish ≡ true → relays c q.mac multicast a.relay ≡ true)
        → Allows a
        → All P s.dst
        → All P (put_dst D c q j multicast ttl a.target wish s).dst
    unfolding put_dst
    put_dst-All a wish s st w allow all =
        let i = s.plane.ifaces q.src in
        let wished = wish && not (i.is_layered && a.target == q.src) in
        let lives = (ltb 1 ttl || i.is_tunnel || q.outbound) && ltb (length s.dst) q.size in
        elim (Bool-cases (wished && lives)) [
          | inl e ↦
              let wanted : wish ≡ true = ground (arith, e) in
              let apart : (i.is_layered && a.target == q.src) ≡ false = ground (arith, e) in
              let alive : (ltb 1 ttl || i.is_tunnel || q.outbound) ≡ true = ground (arith, e) in
              let ok =
                allow (w wanted) (ap (λ (b : Bool). b && a.target == q.src) (sym st.0) ∙ apart)
                  (ap (λ (b : Bool). ltb 1 ttl || b || q.outbound) (sym st.1) ∙ alive) in
              rw e (All-snoc P a.target s.dst all ok)
          | inr e ↦ rw e all
        ]

    abbrev stays_from :
        (s t : Sweep D) → settings D q.src t.plane ≡ settings D q.src s.plane → Stays s → Stays t
    stays_from s t e st =
        (ap (λ (g : Settings). g.is_layered) e ∙ st.0, ap (λ (g : Settings). g.is_tunnel) e ∙ st.1)

    turn-All :
        (a : Associate) (s : Sweep D)
        → Stays s
        → Allows a
        → All P s.dst
        → All P (turn D c q j multicast ttl a s).dst
    unfolding turn
    turn-All a s st allow all =
        let r = turn_check D c q j multicast ttl a s in
        put_dst-All a r.0 r.1
          (stays_from s r.1 (settings-turn_check D q.src c q j multicast ttl a s) st)
          (turn_check-wish a s) allow
          (subst (All P) (sym (turn_check-dst D c q j multicast ttl a s)) all)

    pub sweep-All :
        (rest : List Associate) (s : Sweep D)
        → Stays s
        → All Allows rest
        → All P s.dst
        → All P (sweep D c q j multicast ttl rest s).1.dst
    unfolding sweep
    sweep-All [] s st allow all = all
    sweep-All (a ∷ rest) s st allow all = elim (Bool-cases (own_capture D c q j multicast ttl)) [
      | inl e ↦ rw e (subst (All P) (sym (turn_check-dst D c q j multicast ttl a s)) all)
      | inr e ↦
          let t = turn D c q j multicast ttl a s in
          rw e (
            sweep-All rest t (stays_from s t (settings-turn D q.src c q j multicast ttl a s) st)
              allow.1 (turn-All a s st allow.0 all))
    ]

  put_dst-size :
      (y : ℕ) (wish : Bool) (s : Sweep D)
      → length s.dst ≤ q.size
      → length (put_dst D c q j multicast ttl y wish s).dst ≤ q.size
  unfolding put_dst
  put_dst-size y wish s h = ground (arith, length-append s.dst (y ∷ []))

  -- The loop does not write past the array.
  pub sweep_size :
      (rest : List Associate) (s : Sweep D)
      → length s.dst ≤ q.size
      → length (sweep D c q j multicast ttl rest s).1.dst ≤ q.size
  unfolding sweep turn
  sweep_size [] s h = h
  sweep_size (a ∷ rest) s h =
      let r = turn_check D c q j multicast ttl a s in
      let same = ap length (turn_check-dst D c q j multicast ttl a s) in
      elim (Bool-cases (own_capture D c q j multicast ttl)) [
        | inl e ↦ rw e (omega (arith, same))
        | inr e ↦ rw e (
            sweep_size rest (put_dst D c q j multicast ttl a.target r.0 r.1)
              (put_dst-size a.target r.0 r.1 (omega (arith, same))))
      ]
