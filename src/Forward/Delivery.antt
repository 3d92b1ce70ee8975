-- ===== src/Forward/Delivery.antt =====
-- What Smf::ProcessPacket forwards of a stream of packets.
use nrlsmf.Base.{
  ℕ, ◌+◌, ◌≡◌, ◌≤◌, refl, sym, inl, inr, Bool, true, false, not, ◌&&◌, ◌||◌, Option, none, some,
  List, [], ◌∷◌, arith, ◌==◌, if◌then◌else◌, Bool-cases, subst, same_bytes, same_bytes-eq,
  same_bytes_self, Option-cases, ltb,
}
use nrlsmf.Dpd.Tree.{KeyTree}
use nrlsmf.Forward.Packet.{
  Ipv4, Ident, Config, Check, go, skip, own, check_ipv4, classify, ident_of, add_hash,
}
use nrlsmf.Forward.Plane.{Detector, Plane, Request, Sweep, sweep, count_recv}
use nrlsmf.Forward.Process.{
  Smf, Outcome, after_check, is_plain, renumber, dst_count, count_forwarded, mark_arrival, finish,
  start_sweep, run_sweep, forward_packet, identify_packet, process_packet,
}
use nrlsmf.Forward.Memory.{
  Remembers, Budget, lower-Budget, detector_of, detector_of-count_recv, detector_of-count_mrcv,
  detector_of-count_fwd, is_duplicate_pkt-Budget,
}
use nrlsmf.Forward.Once.{count_in, Bounded, same-Budget, sweep-Bounded, sweep_spends}

abbrev pub same_ident : Ident → Ident → Bool
same_ident i j =
    (same_bytes i.flow j.flow && i.flow_bits == j.flow_bits)
    && (same_bytes i.pkt j.pkt && i.pkt_bits == j.pkt_bits)

same_ident-eq : (i j : Ident) → same_ident i j ≡ true → i ≡ j
same_ident-eq i j h = ground (arith, same_bytes-eq i.flow j.flow, same_bytes-eq i.pkt j.pkt)

same_ident_self : (i : Ident) → same_ident i i ≡ true
same_ident_self i = ground (arith, same_bytes_self i.flow, same_bytes_self i.pkt)

module _ (D : Detector) (T : KeyTree) where
  -- A call of ProcessPacket: its arguments, the packet, and what the sequence manager is given.
  pub record Call : Type 0 where
    pub request : Request
    pub packet : Ipv4
    pub new_flow : Option ℕ
    pub rand : ℕ

  abbrev pub outcome : Config → Call → Smf D T → Outcome D T
  outcome c k s = process_packet D T c k.request k.new_flow k.rand k.packet s

  -- How often packets of the ids `id` are forwarded on the interface `x`, over calls in turn.
  abbrev pub sent : ℕ → Ident → Outcome D T → ℕ
  sent x id o = elim o.ident [ none ↦ 0 | some j ↦ if same_ident j id then count_in x o.dst else 0 ]

  unfoldable pub times_sent : Config → ℕ → Ident → List Call → Smf D T → ℕ
  times_sent c x id [] s = 0
  times_sent c x id (k ∷ ks) s =
      sent x id (outcome c k s) + times_sent c x id ks (outcome c k s).smf

  -- The ids that the calls in turn find in their packets pass the test `allowed`.
  abbrev pub passes : (Ident → Bool) → Outcome D T → Bool
  passes allowed o = elim o.ident [ none ↦ true | some j ↦ allowed j ]

  unfoldable pub all_pass : Config → (Ident → Bool) → List Call → Smf D T → Bool
  all_pass c allowed [] s = true
  all_pass c allowed (k ∷ ks) s =
      passes allowed (outcome c k s) && all_pass c allowed ks (outcome c k s).smf

  module _ (c : Config) (x : ℕ) (id : Ident) (allowed : Ident → Bool)
      (m : Remembers D id allowed) where
    abbrev Within : Plane D → ℕ → ℕ → Type 0
    Within p e n = Bounded D x id allowed m p e n

    mark_arrival-Within :
        (q : Request) (j : Ident) (marked : Bool) (p : Plane D) (e n : ℕ)
        → allowed j ≡ true
        → Within p e n
        → Within (mark_arrival D T q j marked p) e n
    unfolding mark_arrival
    mark_arrival-Within q j marked p e n ok b =
        elim (Bool-cases (
          not marked
          && ((p.ifaces q.src).resequence || (not q.outbound && (p.ifaces q.src).is_layered)))) [
            | inl t ↦ rw t (is_duplicate_pkt-Budget D x id allowed m q.src q.now j p e n ok b)
            | inr t ↦ rw t b
          ]

    count_forwarded-Within :
        (q : Request) (count : ℕ) (p : Plane D) (e n : ℕ)
        → Within p e n
        → Within (count_forwarded D T q count p) e n
    unfolding count_forwarded
    count_forwarded-Within q count p e n b = elim (Bool-cases (ltb 0 count && not q.outbound)) [
      | inl t ↦ rw t (same-Budget D x id allowed m _ _ e n (detector_of-count_fwd D x q.src p) b)
      | inr t ↦ rw t b
    ]

    finish-Within :
        (q : Request) (j : Ident) (ttl : ℕ) (r : Sweep D) (e n : ℕ)
        → allowed j ≡ true
        → Within r.plane e n
        → Within (finish D T q j ttl r).1 e n
    unfolding finish
    finish-Within q j ttl r e n ok b =
        let count = dst_count D T q ttl r in
        mark_arrival-Within q j r.marked (count_forwarded D T q count r.plane) e n ok
          (count_forwarded-Within q count r.plane e n b)

    -- What the loop spends.
    run_sweep_spends :
        (q : Request) (j : Ident) (p : Ipv4) (s : Plane D) (e n : ℕ)
        → allowed j ≡ true
        → Within s e n
        → let r = (run_sweep D T c q j p s).1 in
          Within r.plane (e + (if same_ident j id then count_in x r.dst else 0)) n
    unfolding run_sweep
    run_sweep_spends q j p s e n ok b =
        let multicast = c.tests.is_multicast p.dst in
        let as' = (s.ifaces q.src).associates in
        let start = start_sweep D T q s in
        let counted : Within start.plane (e + 0) n =
          lower-Budget D id allowed m _ e (e + 0) n (omega arith)
            (same-Budget D x id allowed m _ _ e n (detector_of-count_mrcv D x q.src s) b) in
        elim (Bool-cases (same_ident j id)) [
          | inl h ↦
              subst
                (λ (i : Ident).
                  let r = (sweep D c q i multicast p.ttl as' start).1 in
                  Within r.plane (e + (if same_ident i id then count_in x r.dst else 0)) n)
                (sym (same_ident-eq j id h))
                (rw (same_ident_self id) (
                  sweep_spends D x id allowed m c q multicast p.ttl
                    (subst (λ i. allowed i ≡ true) (same_ident-eq j id h) ok) as' start e n
                    counted))
          | inr h ↦
              rw h (
                sweep-Bounded D x id allowed m c q j multicast p.ttl ok as' start (e + 0) n counted)
        ]

    -- A call spends what it forwards.
    abbrev Spends : Outcome D T → Smf D T → Type 0
    Spends o s =
        (e n : ℕ)
        → passes allowed o ≡ true
        → Within s.plane e n
        → Within o.smf.plane (e + sent x id o) n

    forward_packet-Spends :
        (q : Request) (j : Ident) (p : Ipv4) (s : Smf D T) → Spends (forward_packet D T c q j p s) s
    unfolding forward_packet
    forward_packet-Spends q j p s e n =
        let r = run_sweep D T c q j p s.plane in
        elim (Bool-cases r.0) [
          | inl t ↦ rw t (λ ok b.
              lower-Budget D id allowed m _
                (e + (if same_ident j id then count_in x r.1.dst else 0)) _ n (ground arith)
                (run_sweep_spends q j p s.plane e n ok b))
          | inr t ↦
              rw t (λ ok b.
                finish-Within q j p.ttl r.1 _ n ok (run_sweep_spends q j p s.plane e n ok b))
        ]

    renumber_lem :
        (wanted : Bool) (now : ℕ) (new_flow : Option ℕ) (rand : ℕ) (p : Ipv4) (s : Smf D T)
        → (renumber D T wanted now new_flow rand p s).1.plane ≡ s.plane
    unfolding renumber
    renumber_lem true now new_flow rand p s = refl
    renumber_lem false now new_flow rand p s = refl

    nothing_spent :
        (e n : ℕ) (d : D.State) → Budget D id allowed m d e n → Budget D id allowed m d (e + 0) n
    nothing_spent e n d = lower-Budget D id allowed m d e (e + 0) n (omega arith)

    identify_packet-Spends :
        (q : Request) (new_flow : Option ℕ) (rand : ℕ) (p : Ipv4) (s : Smf D T)
        → Spends (identify_packet D T c q new_flow rand p s) s
    unfolding identify_packet
    identify_packet-Spends q new_flow rand p s e n =
        let k = classify c.idpd_enable p in
        let wanted = is_plain D T k && (s.plane.ifaces q.src).resequence in
        let r = renumber D T wanted q.now new_flow rand p s in
        elim (Option-cases (ident_of k r.0)) [
          | inl t ↦ rw (t, identify_packet) (λ ok b. nothing_spent e n _ b)
          | inr (j, t) ↦
              rw (t, identify_packet)
                (λ ok b. forward_packet-Spends q (add_hash c r.0 j) r.0 r.1 e n ok (
                  subst (λ (l : Plane D). Within l e n)
                    (sym (renumber_lem wanted q.now new_flow rand p s)) b))
        ]

    process_packet-Spends : (k : Call) (s : Smf D T) → Spends (outcome c k s) s
    unfolding process_packet
    process_packet-Spends k s e n ok b =
        let q = k.request in
        let counted : Smf D T = record s { plane = count_recv D q.src s.plane } in
        let start : Within counted.plane e n =
          same-Budget D x id allowed m _ _ e n (detector_of-count_recv D x q.src s.plane) b in
        (elim (check_ipv4 c (s.plane.ifaces q.src).is_tunnel q.outbound k.packet)
            as (λ (v : Check).
              let o = after_check D T c q k.new_flow k.rand k.packet counted v in
              passes allowed o ≡ true → Within o.smf.plane (e + sent x id o) n) [
                | go ↦ λ t. identify_packet-Spends q k.new_flow k.rand k.packet counted e n t start
                | skip ↦ λ t. nothing_spent e n _ start
                | own ↦ λ t. nothing_spent e n _ start
              ])
          ok

    spends_all :
        (ks : List Call) (s : Smf D T) (e n : ℕ)
        → all_pass c allowed ks s ≡ true
        → Within s.plane e n
        → e + times_sent c x id ks s ≤ n
    unfolding times_sent all_pass
    spends_all [] s e n ok b = omega (arith, b.within)
    spends_all (k ∷ ks) s e n ok b =
        let o = outcome c k s in
        omega (
          arith,
          spends_all ks o.smf (e + sent x id o) n (ground (arith, ok))
              (process_packet-Spends k s e n (ground (arith, ok)) b),
        )

    -- A packet of the ids is put into `dstIfArray` at most once for an interface whose detector
    -- remembers it.
    pub sent_once :
        (ks : List Call) (s : Smf D T)
        → all_pass c allowed ks s ≡ true
        → m.Ready (detector_of D x s.plane)
        → times_sent c x id ks s ≤ 1
    sent_once ks s ok r =
        let d = detector_of D x s.plane in
        let one : Within s.plane 0 1 = record {
          ready = r;
          within = elim (Bool-cases (m.known d)) [
            | inl t ↦ rw t (omega arith)
            | inr t ↦ rw t (omega arith)
          ];
        } in
        omega (arith, spends_all ks s 0 1 ok one)
