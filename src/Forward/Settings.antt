-- ===== src/Forward/Settings.antt =====
-- Smf::ProcessPacket changes no setting of an interface.
use nrlsmf.Base.{ℕ, ◌≡◌, refl, sym, ap, ◌∙◌, inl, inr, Bool, ◌&&◌, ◌||◌, arith, ◌==◌, Bool-cases}
use nrlsmf.Forward.Packet.{Ident, Config}
use nrlsmf.Forward.Plane.{
  Detector, Iface, Settings, Plane, Associate, Request, Sweep, choose, set_iface, count_recv,
  count_mrcv, count_dups, count_asym, is_duplicate_pkt, check_duplicate, put_dst, chosen, turn,
  turn_check,
}

module _ (D : Detector) (c : Config) (q : Request) (j : Ident) (multicast : Bool) (ttl : ℕ) where
  pub put_dst-plane :
      (y : ℕ) (wish : Bool) (s : Sweep D) → (put_dst D c q j multicast ttl y wish s).plane ≡ s.plane
  unfolding put_dst
  put_dst-plane y wish s = ground arith

  check_duplicate-dst :
      (y : ℕ) (wish : Bool) (s : Sweep D)
      → (check_duplicate D c q j multicast ttl y wish s).1.dst ≡ s.dst
  unfolding check_duplicate
  check_duplicate-dst y wish s = elim (Bool-cases (is_duplicate_pkt D y q.now j s.plane).0) [
    | inl e ↦ rw e refl
    | inr e ↦ rw e refl
  ]

  pub turn_check-dst :
      (a : Associate) (s : Sweep D) → (turn_check D c q j multicast ttl a s).1.dst ≡ s.dst
  unfolding turn_check chosen
  turn_check-dst a s =
      let k = choose c q.mac multicast a.relay s.asym s.ecds_block in
      elim (Bool-cases (k.iface_forward || (k.update_dup && a.target == q.src))) [
        | inl e ↦
            rw e (check_duplicate-dst a.target k.iface_forward (chosen D c q j multicast ttl a s))
        | inr e ↦ rw e refl
      ]

module _ (D : Detector) (z : ℕ) where
  abbrev pub settings : Plane D → Settings
  settings p = (p.ifaces z).settings

  settings-set_iface :
      (y : ℕ) (f : Iface D) (p : Plane D)
      → f.settings ≡ (p.ifaces y).settings
      → settings (set_iface D y f p) ≡ settings p
  unfolding set_iface
  settings-set_iface y f p e = elim (Bool-cases (z == y)) [
    | inl h ↦
        let same : z ≡ y = ground arith in
        rw (h, settings) (e ∙ ap (λ (w : ℕ). (p.ifaces w).settings) (sym same))
    | inr h ↦ rw (h, settings) refl
  ]

  pub settings-count_mrcv : (y : ℕ) (p : Plane D) → settings (count_mrcv D y p) ≡ settings p
  unfolding count_mrcv
  settings-count_mrcv y p = settings-set_iface y _ p refl

  pub settings-count_recv : (y : ℕ) (p : Plane D) → settings (count_recv D y p) ≡ settings p
  unfolding count_recv
  settings-count_recv y p = settings-set_iface y _ p refl

  settings-count_dups : (y : ℕ) (p : Plane D) → settings (count_dups D y p) ≡ settings p
  unfolding count_dups
  settings-count_dups y p = settings-set_iface y _ p refl

  settings-count_asym : (y : ℕ) (p : Plane D) → settings (count_asym D y p) ≡ settings p
  unfolding count_asym
  settings-count_asym y p = settings-set_iface y _ p refl

  pub settings-is_duplicate_pkt :
      (y now : ℕ) (j : Ident) (p : Plane D) → settings (is_duplicate_pkt D y now j p).1 ≡ settings p
  unfolding is_duplicate_pkt
  settings-is_duplicate_pkt y now j p = settings-set_iface y _ p refl

  module _ (c : Config) (q : Request) (j : Ident) (multicast : Bool) (ttl : ℕ) where
    abbrev of : Sweep D → Settings
    of s = settings s.plane

    settings-check_duplicate :
        (y : ℕ) (wish : Bool) (s : Sweep D)
        → of (check_duplicate D c q j multicast ttl y wish s).1 ≡ of s
    unfolding check_duplicate
    settings-check_duplicate y wish s =
        let r = is_duplicate_pkt D y q.now j s.plane in
        elim (Bool-cases r.0) [
          | inl e ↦ rw e (settings-count_dups y r.1 ∙ settings-is_duplicate_pkt y q.now j s.plane)
          | inr e ↦ rw e (settings-is_duplicate_pkt y q.now j s.plane)
        ]

    settings-chosen : (a : Associate) (s : Sweep D) → of (chosen D c q j multicast ttl a s) ≡ of s
    unfolding chosen
    settings-chosen a s =
        elim (Bool-cases (choose c q.mac multicast a.relay s.asym s.ecds_block).asym) [
          | inl e ↦ rw e (settings-count_asym q.src s.plane)
          | inr e ↦ rw e refl
        ]

    pub settings-turn_check :
        (a : Associate) (s : Sweep D) → of (turn_check D c q j multicast ttl a s).1 ≡ of s
    unfolding turn_check
    settings-turn_check a s =
        let k = choose c q.mac multicast a.relay s.asym s.ecds_block in
        let before = settings-chosen a s in
        elim (Bool-cases (k.iface_forward || (k.update_dup && a.target == q.src))) [
          | inl e ↦ rw e (
              settings-check_duplicate a.target k.iface_forward (chosen D c q j multicast ttl a s)
              ∙ before)
          | inr e ↦ rw e before
        ]

    pub settings-turn : (a : Associate) (s : Sweep D) → of (turn D c q j multicast ttl a s) ≡ of s
    unfolding turn
    settings-turn a s =
        let r = turn_check D c q j multicast ttl a s in
        ap settings (put_dst-plane D c q j multicast ttl a.target r.0 r.1) ∙ settings-turn_check a s
