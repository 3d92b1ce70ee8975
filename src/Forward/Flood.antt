-- ===== src/Forward/Flood.antt =====
-- Classical flooding: the loop of Smf::ProcessPacket over groups of the relay type CF.
pub mod Packets
use nrlsmf.Base.{
  ℕ, zero, suc, ◌+◌, ◌≡◌, ◌≢◌, ◌≤◌, ◌<◌, refl, sym, ap, ap₂, ◌∙◌, subst, inl, inr, Bool, true,
  false, not, ◌&&◌, ◌||◌, List, [], ◌∷◌, ◌++◌, arith, ◌==◌, if◌then◌else◌, ltb, Bool-cases, All,
  length, length-append, map,
}
use mathlib.Core.List.{append_assoc, append-nil}
use nrlsmf.Forward.Packet.{Ident, Config}
use nrlsmf.Forward.Plane.{
  Detector, Iface, Plane, Associate, RelayType, cf, Request, Sweep, Settings, choose, set_iface,
  count_recv, count_mrcv, count_dups, count_asym, is_duplicate_pkt, check_duplicate, put_dst,
  own_capture, chosen, turn, turn_check, sweep,
}
use nrlsmf.Forward.Settings.{
  settings, settings-turn, settings-turn_check, put_dst-plane, turn_check-dst,
}

-- The elements that pass a test, in their order.
abbrev pub select : (ℕ → Bool) → List ℕ → List ℕ
select f [] = []
select f (y ∷ ys) = if f y then y ∷ select f ys else select f ys

-- No element is there twice.
abbrev pub Apart : List ℕ → Type 0
Apart [] = Unit
Apart (y ∷ ys) = All (λ z. z ≢ y) ys × Apart ys

pub select_same : (f g : ℕ → Bool) (ys : List ℕ) → ((y : ℕ) → f y ≡ g y) → select f ys ≡ select g ys
select_same f g [] h = refl
select_same f g (y ∷ ys) h = rw (h y, select_same f g ys h) refl

module _ (D : Detector) (z : ℕ) where
  abbrev detector_at : Plane D → D.State
  detector_at p = (p.ifaces z).detector

  detector_elsewhere :
      (y : ℕ) (f : Iface D) (p : Plane D) → z ≢ y → detector_at (set_iface D y f p) ≡ detector_at p
  unfolding set_iface
  detector_elsewhere y f p h =
      let e : (z == y) ≡ false = ground (arith, h) in rw (e, detector_at) refl

  detector_kept :
      (y : ℕ) (f : Iface D) (p : Plane D)
      → f.detector ≡ (p.ifaces y).detector
      → detector_at (set_iface D y f p) ≡ detector_at p
  unfolding set_iface
  detector_kept y f p e = elim (Bool-cases (z == y)) [
    | inl h ↦
        let same : z ≡ y = ground arith in
        rw (h, detector_at) (e ∙ ap (λ (w : ℕ). (p.ifaces w).detector) (sym same))
    | inr h ↦ rw (h, detector_at) refl
  ]

  detector-count_dups : (y : ℕ) (p : Plane D) → detector_at (count_dups D y p) ≡ detector_at p
  unfolding count_dups
  detector-count_dups y p = detector_kept y _ p refl

  pub detector-count_mrcv : (y : ℕ) (p : Plane D) → detector_at (count_mrcv D y p) ≡ detector_at p
  unfolding count_mrcv
  detector-count_mrcv y p = detector_kept y _ p refl

  pub detector-count_recv : (y : ℕ) (p : Plane D) → detector_at (count_recv D y p) ≡ detector_at p
  unfolding count_recv
  detector-count_recv y p = detector_kept y _ p refl

  detector-is_duplicate_pkt :
      (y now : ℕ) (j : Ident) (p : Plane D)
      → z ≢ y
      → detector_at (is_duplicate_pkt D y now j p).1 ≡ detector_at p
  unfolding is_duplicate_pkt
  detector-is_duplicate_pkt y now j p h = detector_elsewhere y _ p h

module _ (D : Detector) (c : Config) (q : Request) (j : Ident) (multicast : Bool) (ttl : ℕ) where
  -- The interface has not seen the packet.
  abbrev pub fresh : Plane D → ℕ → Bool
  fresh p y = not (D.is_duplicate q.now j (p.ifaces y).detector).0

  chosen_detector :
      (z : ℕ) (a : Associate) (s : Sweep D)
      → detector_at D z (chosen D c q j multicast ttl a s).plane ≡ detector_at D z s.plane
  unfolding chosen count_asym
  chosen_detector z a s =
      elim (Bool-cases (choose c q.mac multicast a.relay s.asym s.ecds_block).asym) [
        | inl e ↦ rw e (detector_kept D z q.src _ s.plane refl)
        | inr e ↦ rw e refl
      ]

  checked_elsewhere :
      (z y : ℕ) (wish : Bool) (s : Sweep D)
      → z ≢ y
      → detector_at D z (check_duplicate D c q j multicast ttl y wish s).1.plane
        ≡ detector_at D z s.plane
  unfolding check_duplicate
  checked_elsewhere z y wish s h =
      let r = is_duplicate_pkt D y q.now j s.plane in
      let once = detector-is_duplicate_pkt D z y q.now j s.plane h in
      elim (Bool-cases r.0) [
        | inl e ↦ rw e (detector-count_dups D z y r.1 ∙ once)
        | inr e ↦ rw e once
      ]

  turn_elsewhere :
      (z : ℕ) (a : Associate) (s : Sweep D)
      → z ≢ a.target
      → detector_at D z (turn D c q j multicast ttl a s).plane ≡ detector_at D z s.plane
  unfolding turn turn_check
  turn_elsewhere z a s h =
      let k = choose c q.mac multicast a.relay s.asym s.ecds_block in
      let t = chosen D c q j multicast ttl a s in
      let before = chosen_detector z a s in
      let kept = λ (r : Bool × Sweep D).
        ap (λ (p : Plane D). detector_at D z p)
          (put_dst-plane D c q j multicast ttl a.target r.0 r.1) in
      elim (Bool-cases (k.iface_forward || (k.update_dup && a.target == q.src))) [
        | inl e ↦ rw e (
            kept (check_duplicate D c q j multicast ttl a.target k.iface_forward t)
            ∙ checked_elsewhere z a.target k.iface_forward t h
            ∙ before)
        | inr e ↦ rw e (kept (false, t) ∙ before)
      ]

  -- One turn on an interface of a group that floods, where nothing else holds the packet back.
  module _ (a : Associate) (floods : a.relay ≡ cf) (on : c.relay_enabled ≡ true) where
    flood_choice :
        (asym ecds : Bool)
        → choose c q.mac multicast a.relay asym ecds
          ≡ record { iface_forward = true; update_dup = true; asym = asym; ecds_block = ecds }
    unfolding choose
    flood_choice asym ecds = rw (floods, on) refl

    flood_check :
        (s : Sweep D)
        → turn_check D c q j multicast ttl a s
          ≡ check_duplicate D c q j multicast ttl a.target true (chosen D c q j multicast ttl a s)
    unfolding turn_check
    flood_check s = rw (flood_choice s.asym s.ecds_block) refl

    check_fresh :
        (y : ℕ) (t : Sweep D) → (check_duplicate D c q j multicast ttl y true t).0 ≡ fresh t.plane y
    unfolding check_duplicate is_duplicate_pkt
    check_fresh y t = elim (Bool-cases (D.is_duplicate q.now j (t.plane.ifaces y).detector).0) [
      | inl e ↦ rw e refl
      | inr e ↦ rw e refl
    ]

  -- Nothing about the interface of arrival or the time to live holds a packet back.
  pub record Open (p : Plane D) : Type 0 where
    pub not_layered : (p.ifaces q.src).is_layered ≡ false
    pub alive : (ltb 1 ttl || (p.ifaces q.src).is_tunnel || q.outbound) ≡ true

  Open-settings : (p r : Plane D) → settings D q.src r ≡ settings D q.src p → Open p → Open r
  Open-settings p r e o = record {
    not_layered = ap (λ (g : Settings). g.is_layered) e ∙ o.not_layered;
    alive = ap (λ (g : Settings). ltb 1 ttl || g.is_tunnel || q.outbound) e ∙ o.alive;
  }

  put_dst-Open :
      (y : ℕ) (wish : Bool) (t : Sweep D)
      → Open t.plane
      → length t.dst < q.size
      → (put_dst D c q j multicast ttl y wish t).dst ≡ (if wish then t.dst ++ (y ∷ []) else t.dst)
  unfolding put_dst
  put_dst-Open y wish t o room = ground (arith, o.not_layered, o.alive)

  flood_turn :
      (a : Associate) (s : Sweep D)
      → a.relay ≡ cf
      → c.relay_enabled ≡ true
      → Open s.plane
      → length s.dst < q.size
      → (turn D c q j multicast ttl a s).dst
        ≡ (if fresh s.plane a.target then s.dst ++ (a.target ∷ []) else s.dst)
  unfolding turn
  flood_turn a s floods on o room =
      let r = turn_check D c q j multicast ttl a s in
      let same = turn_check-dst D c q j multicast ttl a s in
      let verdict : r.0 ≡ fresh s.plane a.target =
        ap (λ (p : Bool × Sweep D). p.0) (flood_check a floods on s)
        ∙ check_fresh a floods on a.target (chosen D c q j multicast ttl a s)
        ∙ ap (λ (d : D.State). not (D.is_duplicate q.now j d).0) (chosen_detector a.target a s) in
      put_dst-Open a.target r.0 r.1
        (Open-settings s.plane r.1.plane (settings-turn_check D q.src c q j multicast ttl a s) o)
        (subst (λ (l : List ℕ). length l < q.size) (sym same) room)
      ∙ ap₂ (λ (b : Bool) (l : List ℕ). if b then l ++ (a.target ∷ []) else l) verdict same

  fresh_kept :
      (a : Associate) (s : Sweep D) (ys : List ℕ)
      → All (λ z. z ≢ a.target) ys
      → select (fresh (turn D c q j multicast ttl a s).plane) ys ≡ select (fresh s.plane) ys
  fresh_kept a s [] h = refl
  fresh_kept a s (y ∷ ys) h =
      let here : fresh (turn D c q j multicast ttl a s).plane y ≡ fresh s.plane y =
        ap (λ (d : D.State). not (D.is_duplicate q.now j d).0) (turn_elsewhere y a s h.0) in
      ap₂ (λ (b : Bool) (l : List ℕ). if b then y ∷ l else l) here (fresh_kept a s ys h.1)

  -- The loop forwards on the targets, in their order, that have not seen the packet.
  pub flood_sweep :
      (rest : List Associate) (s : Sweep D)
      → All (λ (a : Associate). a.relay ≡ cf) rest
      → c.relay_enabled ≡ true
      → own_capture D c q j multicast ttl ≡ false
      → Open s.plane
      → Apart (map (λ (a : Associate). a.target) rest)
      → length s.dst + length rest ≤ q.size
      → ((sweep D c q j multicast ttl rest s).0 ≡ false)
        × ((sweep D c q j multicast ttl rest s).1.dst
            ≡ s.dst ++ select (fresh s.plane) (map (λ (a : Associate). a.target) rest))
  unfolding sweep
  flood_sweep [] s floods on other o apart room = (refl, sym (append-nil s.dst))
  flood_sweep (a ∷ rest) s floods on other o apart room =
      let t = turn D c q j multicast ttl a s in
      let ys = map (λ (b : Associate). b.target) rest in
      let step = flood_turn a s floods.0 on o (omega (arith, room)) in
      let still_open =
        Open-settings s.plane t.plane (settings-turn D q.src c q j multicast ttl a s) o in
      let keep = fresh_kept a s ys apart.0 in
      let picked = λ (b : Bool). if b then s.dst ++ (a.target ∷ []) else s.dst in
      elim (Bool-cases (fresh s.plane a.target)) [
        | inl e ↦
            let now : t.dst ≡ s.dst ++ (a.target ∷ []) = step ∙ ap picked e in
            let ih =
              flood_sweep rest t floods.1 on other still_open apart.1
                (omega (arith, room, ap length now, length-append s.dst (a.target ∷ []))) in
            rw (other, e)
              (
                ih.0,
                ih.1
                    ∙ ap₂ (λ (l m : List ℕ). l ++ m) now keep
                    ∙ append_assoc s.dst (a.target ∷ []) (select (fresh s.plane) ys),
              )
        | inr e ↦
            let now : t.dst ≡ s.dst = step ∙ ap picked e in
            let ih =
              flood_sweep rest t floods.1 on other still_open apart.1
                (omega (arith, room, ap length now)) in
            rw (other, e) (ih.0, ih.1 ∙ ap₂ (λ (l m : List ℕ). l ++ m) now keep)
      ]
