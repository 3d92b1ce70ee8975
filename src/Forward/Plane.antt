-- ===== src/Forward/Plane.antt =====
-- Interfaces and the loop of Smf::ProcessPacket (src/common/smf.cpp, include/smf.h) that picks those
-- on which a packet is forwarded, as it is built without elastic multicast and adaptive routing.
use nrlsmf.Base.{
  ℕ, ◌+◌, ◌%◌, Bool, true, false, not, ◌&&◌, ◌||◌, List, [], ◌∷◌, ◌++◌, ltb, ◌==◌, if◌then◌else◌,
  length, word,
}
use nrlsmf.Wire.{Address}
use nrlsmf.Dpd.Links.{update}
use nrlsmf.Forward.Packet.{Ident, Config}
use nrlsmf.Forward.Macs.{is_listed}

-- SmfDpd: the duplicate detector of an interface. IsDuplicate takes the time.
pub record Detector : Type 1 where
  pub State : Type 0
  pub is_duplicate : ℕ → Ident → State → Bool × State

-- Smf::RelayType.
pub data RelayType : Type 0 where
  invalid cf s_mpr e_cds mpr_cds ns_mpr : RelayType

-- Interface::Associate: the relay type of its group, and the index of its interface, which
-- AddInterface gives to one interface only.
pub record Associate : Type 0 where
  pub relay : RelayType
  pub target : ℕ

-- What ProcessPacket reads of an interface and does not change.
pub record Settings : Type 0 where
  pub resequence : Bool
  pub is_tunnel : Bool
  pub is_layered : Bool
  pub associates : List Associate

-- What the loop decides on an associate before the check for duplicates.
pub record Choice : Type 0 where
  pub iface_forward : Bool
  pub update_dup : Bool
  pub asym : Bool
  pub ecds_block : Bool

-- The arguments of ProcessPacket that the loop reads: the index of `srcIface`, `srcMac`, `outbound`,
-- `dstIfArraySize`; and what it has read of the packet.
pub record Request : Type 0 where
  pub src : ℕ
  pub mac : Address
  pub outbound : Bool
  pub size : ℕ
  pub now : ℕ

unfoldable pub is_selector : Config → Address → Bool
is_selector c mac = is_listed c.selector_list c.selector_list_len mac.host

unfoldable pub is_neighbor : Config → Address → Bool
is_neighbor c mac = is_listed c.neighbor_list c.neighbor_list_len mac.host

-- The switch on the relay type. Types that are not implemented forward nothing.
unfoldable pub choose : Config → Address → Bool → RelayType → Bool → Bool → Choice
choose c mac multicast relay asym ecds = elim relay [
  | cf ↦ record {
    iface_forward = c.relay_enabled;
    update_dup = c.relay_enabled;
    asym = asym;
    ecds_block = ecds;
  }
  | e_cds ↦
      let relays = c.relay_enabled && c.relay_selected in
      if multicast
      then (record { iface_forward = relays; update_dup = relays; asym = asym; ecds_block = ecds })
      else (record {
        iface_forward = false;
        update_dup = false;
        asym = asym;
        ecds_block = if c.tests.is_valid mac then not relays else ecds;
      })
  | s_mpr ↦
      let relays = c.relay_enabled && is_selector c mac in
      let near = is_neighbor c mac in
      record {
        iface_forward = relays;
        update_dup = near || relays;
        asym = if near then asym else true;
        ecds_block = ecds;
      }
  | _ ↦ record { iface_forward = false; update_dup = false; asym = asym; ecds_block = ecds }
]

module _ (D : Detector) where
  open D use {State, is_duplicate}

  -- Smf::Interface, as far as ProcessPacket uses it.
  pub record Iface : Type 0 where
    pub settings : Settings
    pub open settings use *
    pub detector : State
    pub recv_count : ℕ
    pub mrcv_count : ℕ
    pub dups_count : ℕ
    pub asym_count : ℕ
    pub fwd_count : ℕ

  -- The interfaces by their index, and the counters of Smf.
  pub record Plane : Type 0 where
    pub ifaces : ℕ → Iface
    pub recv_count : ℕ
    pub mrcv_count : ℕ
    pub dups_count : ℕ
    pub asym_count : ℕ
    pub fwd_count : ℕ

  -- The local variables that the loop changes; `marked` is `srcIfaceMarked`, `dst` the array up to
  -- `dstCount`.
  pub record Sweep : Type 0 where
    pub plane : Plane
    pub asym : Bool
    pub ecds_block : Bool
    pub marked : Bool
    pub recv_dup : Bool
    pub dst : List ℕ

  abbrev pub one_more : ℕ → ℕ
  one_more n = (n + 1) % word

  unfoldable pub set_iface : ℕ → Iface → Plane → Plane
  set_iface x f p = record p { ifaces = update p.ifaces x f }

  -- IncrementRecvCount and so on, with the counter of Smf that goes up with it.
  unfoldable pub count_recv : ℕ → Plane → Plane
  unfolding set_iface
  count_recv x p =
      record (set_iface x (record (p.ifaces x) { recv_count = one_more (p.ifaces x).recv_count })
        p) { recv_count = one_more p.recv_count }

  unfoldable pub count_mrcv : ℕ → Plane → Plane
  unfolding set_iface
  count_mrcv x p =
      record (set_iface x (record (p.ifaces x) { mrcv_count = one_more (p.ifaces x).mrcv_count })
        p) { mrcv_count = one_more p.mrcv_count }

  unfoldable pub count_dups : ℕ → Plane → Plane
  unfolding set_iface
  count_dups x p =
      record (set_iface x (record (p.ifaces x) { dups_count = one_more (p.ifaces x).dups_count })
        p) { dups_count = one_more p.dups_count }

  unfoldable pub count_asym : ℕ → Plane → Plane
  unfolding set_iface
  count_asym x p =
      record (set_iface x (record (p.ifaces x) { asym_count = one_more (p.ifaces x).asym_count })
        p) { asym_count = one_more p.asym_count }

  unfoldable pub count_fwd : ℕ → Plane → Plane
  unfolding set_iface
  count_fwd x p =
      record (set_iface x (record (p.ifaces x) { fwd_count = one_more (p.ifaces x).fwd_count }) p) {
        fwd_count = one_more p.fwd_count;
      }

  -- Interface::IsDuplicatePkt.
  unfoldable pub is_duplicate_pkt : ℕ → ℕ → Ident → Plane → Bool × Plane
  unfolding set_iface
  is_duplicate_pkt x now id p =
      let r = is_duplicate now id (p.ifaces x).detector in
      (r.0, set_iface x (record (p.ifaces x) { detector = r.1 }) p)

  module _ (c : Config) (q : Request) (id : Ident) (multicast : Bool) (ttl : ℕ) where
    abbrev from_tunnel : Plane → Bool
    from_tunnel p = (p.ifaces q.src).is_tunnel

    -- The check for duplicates on the interface `x`, and what is left of the wish to forward.
    unfoldable pub check_duplicate : ℕ → Bool → Sweep → Bool × Sweep
    check_duplicate x wish s =
        let r = is_duplicate_pkt x q.now id s.plane in
        let same = x == q.src in
        if r.0
        then (
          false,
          record s {
            plane = count_dups x r.1;
            recv_dup = s.recv_dup || same;
            marked = s.marked || same;
          },
        )
        else (wish, record s { plane = r.1; marked = s.marked || same })

    unfoldable pub put_dst : ℕ → Bool → Sweep → Sweep
    put_dst x wish s =
        let layered = (s.plane.ifaces q.src).is_layered && x == q.src in
        let lives = ltb 1 ttl || from_tunnel s.plane || q.outbound in
        if (wish && not layered) && (lives && ltb (length s.dst) q.size)
        then record s { dst = s.dst ++ (x ∷ []) }
        else s

    -- A packet that this node has sent and captures again ends the loop.
    unfoldable pub own_capture : Bool
    own_capture = not q.outbound && c.tests.is_valid q.mac && c.is_own_address q.mac

    abbrev pub choice : Associate → Sweep → Choice
    choice a s = choose c q.mac multicast a.relay s.asym s.ecds_block

    -- The variables after the switch on the relay type.
    unfoldable pub chosen : Associate → Sweep → Sweep
    chosen a s = record s {
      plane = if (choice a s).asym then count_asym q.src s.plane else s.plane;
      asym = (choice a s).asym;
      ecds_block = (choice a s).ecds_block;
    }

    -- One turn of the loop up to the check for duplicates, and what is left of the wish to forward.
    unfoldable pub turn_check : Associate → Sweep → Bool × Sweep
    turn_check a s =
        let k = choice a s in
        if k.iface_forward || (k.update_dup && a.target == q.src)
        then check_duplicate a.target k.iface_forward (chosen a s)
        else (false, chosen a s)

    unfoldable pub turn : Associate → Sweep → Sweep
    turn a s = let r = turn_check a s in put_dst a.target r.0 r.1

    -- The loop, and whether it returned 0 at once.
    unfoldable pub sweep : List Associate → Sweep → Bool × Sweep
    sweep [] s = (false, s)
    sweep (a ∷ rest) s =
        let later = sweep rest (turn a s) in
        if own_capture then (true, (turn_check a s).1) else later
