-- ===== src/Forward/Allowed.antt =====
-- What Smf::ProcessPacket forwards it may forward.
use nrlsmf.Base.{
  ℕ, ◌≡◌, ◌≤◌, ◌%◌, refl, sym, ap, subst, inl, inr, Bool, true, false, not, ◌&&◌, ◌||◌, List, [],
  ◌∷◌, Option, some, arith, ◌==◌, ltb, Bool-cases, Option-cases, All, All-mono, All-indexed, length,
  get_elem?,
}
use nrlsmf.Dpd.Tree.{KeyTree}
use nrlsmf.Dpd.Sequence.{increment_sequence}
use nrlsmf.Forward.Packet.{
  Ipv4, Ident, Config, Check, go, skip, own, check_ipv4, classify, ident_of, add_hash, set_id,
}
use nrlsmf.Forward.Plane.{
  Detector, Plane, Associate, Request, Sweep, Settings, own_capture, sweep, count_recv,
}
use nrlsmf.Forward.Settings.{settings, settings-count_mrcv, settings-count_recv}
use nrlsmf.Forward.Process.{
  Smf, Outcome, after_check, is_plain, renumber, start_sweep, run_sweep, forward_packet,
  identify_packet, process_packet,
}
use nrlsmf.Forward.Rules.{relays, sweep-All, sweep_size}
use nrlsmf.Forward.Delivery.{Call, outcome}

-- The checks at the head, as conditions.
pub record Passes (c : Config) (is_tunnel outbound : Bool) (p : Ipv4) : Type 0 where
  pub wanted : (c.tests.is_multicast p.dst || c.unicast_enabled || c.adaptive_routing) ≡ true
  pub dst_beyond_link : (not (c.tests.is_link_local p.dst) || is_tunnel) ≡ true
  pub not_own : (outbound || not (c.is_own_address p.src)) ≡ true
  pub src_beyond_link : (not (c.tests.is_link_local p.src) || is_tunnel || outbound) ≡ true

check_ipv4-go :
    (c : Config) (is_tunnel outbound : Bool) (p : Ipv4)
    → check_ipv4 c is_tunnel outbound p ≡ go
    → Passes c is_tunnel outbound p
unfolding check_ipv4
check_ipv4-go c is_tunnel outbound p e = record {
  wanted = ground arith;
  dst_beyond_link = ground arith;
  not_own = ground arith;
  src_beyond_link = ground arith;
}

-- The interface `y` is the target of an associate whose relay type forwards the packet.
abbrev pub Relayed : Config → Request → Bool → List Associate → ℕ → Type 0
Relayed c q multicast as' y =
    (i : ℕ) × (a : Associate) × (get_elem? as' i ≡ some a)
    × (a.target ≡ y)
    × (relays c q.mac multicast a.relay ≡ true)

-- What holds of each interface that the packet is forwarded on.
pub record May (c : Config) (q : Request) (g : Settings) (p : Ipv4) (y : ℕ) : Type 0 where
  pub passes : Passes c g.is_tunnel q.outbound p
  pub relayed : Relayed c q (c.tests.is_multicast p.dst) g.associates y
  pub apart : (g.is_layered && y == q.src) ≡ false
  pub alive : (ltb 1 p.ttl || g.is_tunnel || q.outbound) ≡ true
  pub not_captured : (q.outbound || not (c.tests.is_valid q.mac && c.is_own_address q.mac)) ≡ true

module _ (D : Detector) (T : KeyTree) (c : Config) where
  abbrev of : Request → Smf D T → Settings
  of q s = settings D q.src s.plane

  own_sweep :
      (q : Request) (j : Ident) (multicast : Bool) (ttl : ℕ) (rest : List Associate) (t : Sweep D)
      → own_capture D c q j multicast ttl ≡ true
      → (sweep D c q j multicast ttl rest t).0 ≡ false
      → (sweep D c q j multicast ttl rest t).1.dst ≡ t.dst
  unfolding sweep
  own_sweep q j multicast ttl [] t e = λ h. refl
  own_sweep q j multicast ttl (a ∷ rest) t e = rw e (λ h. absurd (ground (arith, h)))

  capture_free :
      (q : Request) (j : Ident) (multicast : Bool) (ttl : ℕ)
      → own_capture D c q j multicast ttl ≡ false
      → (q.outbound || not (c.tests.is_valid q.mac && c.is_own_address q.mac)) ≡ true
  unfolding own_capture
  capture_free q j multicast ttl e = ground (arith, e)

  run_sweep-May :
      (q : Request) (j : Ident) (p : Ipv4) (s : Plane D)
      → Passes c (settings D q.src s).is_tunnel q.outbound p
      → (run_sweep D T c q j p s).0 ≡ false
      → All (May c q (settings D q.src s) p) (run_sweep D T c q j p s).1.dst
  unfolding run_sweep
  run_sweep-May q j p s ok =
      let multicast = c.tests.is_multicast p.dst in
      let g = settings D q.src s in
      let start = start_sweep D T q s in
      let same = settings-count_mrcv D q.src q.src s in
      elim (Bool-cases (own_capture D c q j multicast p.ttl)) [
        | inl e ↦ λ h.
            subst (All (May c q g p)) (sym (own_sweep q j multicast p.ttl g.associates start e h))
              tt
        | inr e ↦ λ h.
            sweep-All D c q j multicast p.ttl (May c q g p) g.is_layered g.is_tunnel g.associates
              start
              (ap (λ (i : Settings). i.is_layered) same, ap (λ (i : Settings). i.is_tunnel) same)
              (All-mono _ _ g.associates
                (λ a found relayed apart alive. record {
                  passes = ok;
                  relayed = (found.0, a, found.1, refl, relayed);
                  apart = apart;
                  alive = alive;
                  not_captured = capture_free q j multicast p.ttl e;
                })
                (All-indexed g.associates))
              tt
      ]

  run_sweep_size :
      (q : Request) (j : Ident) (p : Ipv4) (s : Plane D)
      → length (run_sweep D T c q j p s).1.dst ≤ q.size
  unfolding run_sweep
  run_sweep_size q j p s =
      sweep_size D c q j (c.tests.is_multicast p.dst) p.ttl (s.ifaces q.src).associates
        (start_sweep D T q s) (omega arith)

  -- What holds of a call's outcome.
  abbrev pub Sound : Request → Settings → Ipv4 → Outcome D T → Type 0
  Sound q g p o = All (May c q g p) o.dst × (length o.dst ≤ q.size)

  forward_packet-Sound :
      (q : Request) (j : Ident) (p : Ipv4) (s : Smf D T)
      → Passes c (of q s).is_tunnel q.outbound p
      → Sound q (of q s) p (forward_packet D T c q j p s)
  unfolding forward_packet
  forward_packet-Sound q j p s ok =
      let r = run_sweep D T c q j p s.plane in
      elim (Bool-cases r.0) [
        | inl e ↦ rw e (tt, omega arith)
        | inr e ↦ rw e (run_sweep-May q j p s.plane ok e, run_sweep_size q j p s.plane)
      ]

  -- The identifier of a packet has no part in the rules.
  set_id-May :
      (q : Request) (g : Settings) (n : ℕ) (p : Ipv4) (y : ℕ)
      → May c q g (set_id n p) y
      → May c q g p y
  unfolding set_id
  set_id-May q g n p y m = record {
    passes = record {
      wanted = m.passes.wanted;
      dst_beyond_link = m.passes.dst_beyond_link;
      not_own = m.passes.not_own;
      src_beyond_link = m.passes.src_beyond_link;
    };
    relayed = m.relayed;
    apart = m.apart;
    alive = m.alive;
    not_captured = m.not_captured;
  }

  set_id-Passes :
      (n : ℕ) (is_tunnel outbound : Bool) (p : Ipv4)
      → Passes c is_tunnel outbound p
      → Passes c is_tunnel outbound (set_id n p)
  unfolding set_id
  set_id-Passes n is_tunnel outbound p ok = record {
    wanted = ok.wanted;
    dst_beyond_link = ok.dst_beyond_link;
    not_own = ok.not_own;
    src_beyond_link = ok.src_beyond_link;
  }

  renumbered-Sound :
      (wanted : Bool) (q : Request) (j : Ident) (new_flow : Option ℕ) (rand : ℕ) (p : Ipv4)
      (s : Smf D T)
      → Passes c (of q s).is_tunnel q.outbound p
      → let r = renumber D T wanted q.now new_flow rand p s in
        Sound q (of q s) p (forward_packet D T c q j r.0 r.1)
  unfolding renumber
  renumbered-Sound false q j new_flow rand p s ok = forward_packet-Sound q j p s ok
  renumbered-Sound true q j new_flow rand p s ok =
      let r =
        increment_sequence T q.now (some p.dst.host) (some p.src.host) new_flow rand
          s.ip4_seq_mgr in
      let n = r.0 % 65536 in
      let s' : Smf D T = record s { ip4_seq_mgr = r.1 } in
      let sound =
        forward_packet-Sound q j (set_id n p) s'
          (set_id-Passes n (of q s).is_tunnel q.outbound p ok) in
      (All-mono _ _ _ (set_id-May q (of q s) n p) sound.0, sound.1)

  identify_packet-Sound :
      (q : Request) (new_flow : Option ℕ) (rand : ℕ) (p : Ipv4) (s : Smf D T)
      → Passes c (of q s).is_tunnel q.outbound p
      → Sound q (of q s) p (identify_packet D T c q new_flow rand p s)
  unfolding identify_packet
  identify_packet-Sound q new_flow rand p s ok =
      let k = classify c.idpd_enable p in
      let wanted = is_plain D T k && (s.plane.ifaces q.src).resequence in
      let r = renumber D T wanted q.now new_flow rand p s in
      elim (Option-cases (ident_of k r.0)) [
        | inl e ↦ rw (e, identify_packet) (tt, omega arith)
        | inr (j, e) ↦
            rw (e, identify_packet)
              (renumbered-Sound wanted q (add_hash c r.0 j) new_flow rand p s ok)
      ]

  after_check-Sound :
      (k : Call D T) (s : Smf D T) (v : Check)
      → check_ipv4 c (of k.request s).is_tunnel k.request.outbound k.packet ≡ v
      → Sound k.request
          (of k.request s)
          k.packet
          (after_check D T c k.request k.new_flow k.rand k.packet s v)
  after_check-Sound k s skip e = (tt, omega arith)
  after_check-Sound k s own e = (tt, omega arith)
  after_check-Sound k s go e =
      identify_packet-Sound k.request k.new_flow k.rand k.packet s
        (check_ipv4-go c (of k.request s).is_tunnel k.request.outbound k.packet e)

  -- Each interface that ProcessPacket puts into `dstIfArray` for an IPv4 packet is the target
  -- of an associate of the arrival interface whose relay type has this node relay the packet
  -- (CF with relaying enabled, E_CDS with a multicast destination and this node selected, S_MPR
  -- with the sender a selector); it is not the arrival interface if that is layered; the
  -- destination is multicast unless unicast or adaptive routing is on, and beyond the link
  -- unless from a tunnel; the source is neither this node nor on the link, and the frame is not
  -- this node's own, unless outbound (or, for the link, from a tunnel); and the time to live is
  -- over 1 unless outbound or from a tunnel. No more than `dstIfArraySize` are put.
  pub process_packet-Sound :
      (k : Call D T) (s : Smf D T) → Sound k.request (of k.request s) k.packet (outcome D T c k s)
  unfolding process_packet
  process_packet-Sound k s =
      let q = k.request in
      let counted : Smf D T = record s { plane = count_recv D q.src s.plane } in
      let same : of q counted ≡ of q s = settings-count_recv D q.src q.src s.plane in
      let v = check_ipv4 c (of q s).is_tunnel q.outbound k.packet in
      subst
        (λ (g : Settings).
          Sound q g k.packet (after_check D T c q k.new_flow k.rand k.packet counted v))
        same
        (after_check-Sound k counted v
          (ap (λ (g : Settings). check_ipv4 c g.is_tunnel q.outbound k.packet) same))
