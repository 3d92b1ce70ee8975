-- ===== src/Forward/Process.antt =====
-- Smf::ProcessPacket of src/common/smf.cpp on an IPv4 packet, from the checks at its head to the
-- count that it returns, as it is built without elastic multicast and adaptive routing.
use nrlsmf.Base.{
  ℕ, ◌%◌, Bool, true, false, not, ◌&&◌, ◌||◌, Option, none, some, List, [], ℤ, pos, negsuc, ltb,
  leb, if◌then◌else◌, length,
}
use nrlsmf.Dpd.Tree.{KeyTree}
use nrlsmf.Dpd.Sequence.{SequenceMgr, increment_sequence}
use nrlsmf.Forward.Packet.{
  Ipv4, Ident, Config, Check, Class, go, skip, own, plain, check_ipv4, classify, ident_of, set_id,
  add_hash, decrement_ttl,
}
use nrlsmf.Forward.Plane.{
  Detector, Plane, Request, Sweep, count_recv, count_mrcv, count_fwd, is_duplicate_pkt, sweep,
}

module _ (D : Detector) (T : KeyTree) where
  pub record Smf : Type 0 where
    pub plane : Plane D
    pub ip4_seq_mgr : SequenceMgr T

  -- The value returned, `dstIfArray` up to `dstCount`, `*recvDup`, the packet as it is left, and the
  -- ids under which it was checked.
  pub record Outcome : Type 0 where
    pub value : ℤ
    pub dst : List ℕ
    pub recv_dup : Bool
    pub packet : Ipv4
    pub ident : Option Ident
    pub smf : Smf

  -- `return 0` before the loop.
  abbrev pub nothing : Bool → Ipv4 → Smf → Outcome
  nothing recv_dup p s = record {
    value = pos 0;
    dst = [];
    recv_dup = recv_dup;
    packet = p;
    ident = none;
    smf = s;
  }

  abbrev pub is_plain : Class → Bool
  is_plain plain = true
  is_plain _ = false

  -- A packet that is neither a fragment nor of IPsec gets a number of its own on an interface that
  -- resequences. `new_flow` and `rand` are what the sequence manager is given.
  unfoldable pub renumber : Bool → ℕ → Option ℕ → ℕ → Ipv4 → Smf → Ipv4 × Smf
  renumber wanted now new_flow rand p s =
      if wanted
      then (let r =
            increment_sequence T now (some p.dst.host) (some p.src.host) new_flow rand
              s.ip4_seq_mgr in
          (set_id (r.0 % 65536) p, record s { ip4_seq_mgr = r.1 }))
      else (p, s)

  -- `dstCount` after the last look at the time to live.
  unfoldable pub dst_count : Request → ℕ → Sweep D → ℕ
  dst_count q ttl r =
      let i = r.plane.ifaces q.src in
      if leb ttl 1 && not q.outbound && not i.is_tunnel then 0 else length r.dst

  unfoldable pub count_forwarded : Request → ℕ → Plane D → Plane D
  count_forwarded q count p = if ltb 0 count && not q.outbound then count_fwd D q.src p else p

  -- The packet is entered for the interface on which it came, unless the loop did.
  unfoldable pub mark_arrival : Request → Ident → Bool → Plane D → Plane D
  mark_arrival q id marked p =
      let i = p.ifaces q.src in
      if not marked && (i.resequence || (not q.outbound && i.is_layered))
      then (is_duplicate_pkt D q.src q.now id p).1
      else p

  -- What follows the loop: the value returned, and the state then.
  unfoldable pub finish : Request → Ident → ℕ → Sweep D → ℤ × Plane D
  finish q id ttl r =
      let count = dst_count q ttl r in
      (
        if ltb 0 count && r.ecds_block then negsuc 0 else pos count,
        mark_arrival q id r.marked (count_forwarded q count r.plane),
      )

  abbrev pub start_sweep : Request → Plane D → Sweep D
  start_sweep q p = record {
    plane = count_mrcv D q.src p;
    asym = false;
    ecds_block = false;
    marked = false;
    recv_dup = false;
    dst = [];
  }

  -- The loop over the associates of the interface.
  unfoldable pub run_sweep : Config → Request → Ident → Ipv4 → Plane D → Bool × Sweep D
  run_sweep c q id p s =
      sweep D c q id (c.tests.is_multicast p.dst) p.ttl (s.ifaces q.src).associates
        (start_sweep q s)

  -- From the ids on.
  unfoldable pub forward_packet : Config → Request → Ident → Ipv4 → Smf → Outcome
  forward_packet c q id p s =
      let r = run_sweep c q id p s.plane in
      let left = decrement_ttl (s.plane.ifaces q.src).is_tunnel q.outbound p in
      let e = finish q id p.ttl r.1 in
      if r.0
      then (record {
        value = pos 0;
        dst = [];
        recv_dup = r.1.recv_dup;
        packet = left;
        ident = some id;
        smf = record s { plane = r.1.plane };
      })
      else (record {
        value = e.0;
        dst = r.1.dst;
        recv_dup = r.1.recv_dup;
        packet = left;
        ident = some id;
        smf = record s { plane = e.1 };
      })

  unfoldable pub identify_packet : Config → Request → Option ℕ → ℕ → Ipv4 → Smf → Outcome
  identify_packet c q new_flow rand p s =
      let k = classify c.idpd_enable p in
      let r = renumber (is_plain k && (s.plane.ifaces q.src).resequence) q.now new_flow rand p s in
      elim (ident_of k r.0) [
        | none ↦ nothing false p s
        | some id ↦ forward_packet c q (add_hash c r.0 id) r.0 r.1
      ]

  abbrev pub after_check : Config → Request → Option ℕ → ℕ → Ipv4 → Smf → Check → Outcome
  after_check c q new_flow rand p s skip = nothing false p s
  after_check c q new_flow rand p s own = nothing true p s
  after_check c q new_flow rand p s go = identify_packet c q new_flow rand p s

  unfoldable pub process_packet : Config → Request → Option ℕ → ℕ → Ipv4 → Smf → Outcome
  process_packet c q new_flow rand p s =
      after_check c q new_flow rand p (record s { plane = count_recv D q.src s.plane })
        (check_ipv4 c (s.plane.ifaces q.src).is_tunnel q.outbound p)
