-- ===== src/Forward/Unicast.antt =====
-- Unicast packets in groups of the relay type E_CDS, in Smf::ProcessPacket.
use nrlsmf.Wire.{Address}
use nrlsmf.Base.{
  ℕ, zero, suc, subst, ◌≡◌, refl, inl, inr, Bool, true, false, not, ◌&&◌, List, [], ◌∷◌, Option,
  some, pos, arith, leb, Bool-cases, Option-cases, All, get_elem?,
}
use nrlsmf.Dpd.Tree.{KeyTree}
use nrlsmf.Forward.Packet.{
  Ipv4, Ident, Config, Check, go, skip, own, check_ipv4, classify, ident_of, add_hash,
}
use nrlsmf.Forward.Plane.{Detector, Associate, Request, Sweep, RelayType, e_cds, count_recv}
use nrlsmf.Forward.Process.{
  Smf, Outcome, after_check, is_plain, renumber, dst_count, finish, run_sweep, forward_packet,
  identify_packet, process_packet,
}
use nrlsmf.Forward.Rules.{relays}
use nrlsmf.Forward.Delivery.{Call, outcome}
use nrlsmf.Forward.Allowed.{May, process_packet-Sound}

all_at {ℓ} :
    {A : Type 0} (P : A → Type ℓ) (xs : List A) (i : ℕ) (x : A)
    → All P xs
    → get_elem? xs i ≡ some x
    → P x
all_at P [] i x all e = absurd (ground (arith, e))
all_at P (y ∷ ys) zero x all e = subst P (cc) all.0
all_at P (y ∷ ys) (suc i) x all e = all_at P ys i x all.1 e

nothing_left {ℓ} : (P : ℕ → Type ℓ) (xs : List ℕ) → All P xs → ((x : ℕ) → P x → ⊥) → xs ≡ []
nothing_left P [] all never = refl
nothing_left P (x ∷ xs) all never = absurd (never x all.0)

not_relayed :
    (c : Config) (mac : Address) (multicast : Bool) (r : RelayType)
    → multicast ≡ false
    → r ≡ e_cds
    → relays c mac multicast r ≡ true
    → ⊥
not_relayed c mac multicast r u e h =
    let off : relays c mac multicast r ≡ false = rw (e, u) refl in ground (arith, h, off)

module _ (D : Detector) (T : KeyTree) (c : Config) where
  -- No count without an interface.
  abbrev NoCount : Outcome D T → Type 0
  NoCount o = o.dst ≡ [] → o.value ≡ pos 0

  finish-NoCount :
      (q : Request) (j : Ident) (ttl : ℕ) (r : Sweep D)
      → r.dst ≡ []
      → (finish D T q j ttl r).0 ≡ pos 0
  unfolding finish dst_count
  finish-NoCount q j ttl r e =
      elim (Bool-cases (leb ttl 1 && not q.outbound && not (r.plane.ifaces q.src).is_tunnel)) [
        | inl h ↦ rw h refl
        | inr h ↦ rw h (simp e)
      ]

  forward_packet-NoCount :
      (q : Request) (j : Ident) (p : Ipv4) (s : Smf D T) → NoCount (forward_packet D T c q j p s)
  unfolding forward_packet
  forward_packet-NoCount q j p s =
      let r = run_sweep D T c q j p s.plane in
      elim (Bool-cases r.0) [
        | inl e ↦ rw e (λ h. refl)
        | inr e ↦ rw e (λ h. finish-NoCount q j p.ttl r.1 h)
      ]

  identify_packet-NoCount :
      (q : Request) (new_flow : Option ℕ) (rand : ℕ) (p : Ipv4) (s : Smf D T)
      → NoCount (identify_packet D T c q new_flow rand p s)
  unfolding identify_packet
  identify_packet-NoCount q new_flow rand p s =
      let k = classify c.idpd_enable p in
      let wanted = is_plain D T k && (s.plane.ifaces q.src).resequence in
      let r = renumber D T wanted q.now new_flow rand p s in
      elim (Option-cases (ident_of k r.0)) [
        | inl e ↦ rw (e, identify_packet) (λ h. refl)
        | inr (j, e) ↦ rw (e, identify_packet) (forward_packet-NoCount q (add_hash c r.0 j) r.0 r.1)
      ]

  process_packet-NoCount : (k : Call D T) (s : Smf D T) → NoCount (outcome D T c k s)
  unfolding process_packet
  process_packet-NoCount k s =
      let q = k.request in
      let counted : Smf D T = record s { plane = count_recv D q.src s.plane } in
      elim (check_ipv4 c (s.plane.ifaces q.src).is_tunnel q.outbound k.packet)
        as (λ (v : Check). NoCount (after_check D T c q k.new_flow k.rand k.packet counted v)) [
          | go ↦ identify_packet-NoCount q k.new_flow k.rand k.packet counted
          | skip ↦ λ h. refl
          | own ↦ λ h. refl
        ]

  -- If all groups of the arrival interface have the relay type E_CDS, ProcessPacket forwards an
  -- IPv4 packet with a destination that is not multicast nowhere and returns 0, whether or not
  -- this node is a relay.
  pub ecds_unicast_dropped :
      (k : Call D T) (s : Smf D T)
      → All (λ (a : Associate). a.relay ≡ e_cds) (s.plane.ifaces k.request.src).associates
      → c.tests.is_multicast k.packet.dst ≡ false
      → ((outcome D T c k s).dst ≡ []) × ((outcome D T c k s).value ≡ pos 0)
  ecds_unicast_dropped k s ecds unicast =
      let g = (s.plane.ifaces k.request.src).settings in
      let impossible = λ (y : ℕ) (m : May c k.request g k.packet y).
        not_relayed c k.request.mac _ _ unicast
          (all_at (λ (a : Associate). a.relay ≡ e_cds) g.associates m.relayed.0 m.relayed.1 ecds
            m.relayed.2)
          m.relayed.4 in
      let none_sent : (outcome D T c k s).dst ≡ [] =
        nothing_left _ (outcome D T c k s).dst (process_packet-Sound D T c k s).0 impossible in
      (none_sent, process_packet-NoCount k s none_sent)
