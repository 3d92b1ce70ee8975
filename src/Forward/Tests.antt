-- ===== src/Forward/Tests.antt =====
-- Concrete runs of Smf::ProcessPacket.
use nrlsmf.Base.{
  ℕ, ◌≡◌, ◌≤◌, refl, Bool, true, false, ◌||◌, ◌++◌, List, [], ◌∷◌, none, pos, arith, ltb, ◌==◌,
  if◌then◌else◌, All, length, same_bytes,
}
use nrlsmf.Wire.{Address, ipv4, eth}
use nrlsmf.Dpd.SampleTree.{sample_tree}
use nrlsmf.Dpd.Flows.{no_flows}
use nrlsmf.Forward.Packet.{
  Ipv4, Ident, Config, check_ipv4, classify, ident_of, ipsec_class, flow_bytes, add_hash,
  decrement_ttl,
}
use nrlsmf.Forward.Macs.{is_listed, listed_from, is_listed-one_of}
use nrlsmf.Forward.Plane.{
  Detector, Iface, Associate, cf, s_mpr, e_cds, sweep, own_capture, turn, put_dst, turn_check,
  chosen, choose, check_duplicate, is_selector, is_neighbor, count_recv, count_mrcv, count_dups,
  count_asym, count_fwd, is_duplicate_pkt, set_iface,
}
use nrlsmf.Forward.Process.{
  Smf, process_packet, identify_packet, forward_packet, run_sweep, renumber, finish, dst_count,
  count_forwarded, mark_arrival,
}
use nrlsmf.Forward.Delivery.{Call, outcome, same_ident}
use nrlsmf.Forward.Allowed.{May, process_packet-Sound}
use nrlsmf.Forward.Unicast.{ecds_unicast_dropped}

-- A detector that keeps the ids in a list.
abbrev listed_ident : Ident → List Ident → Bool
listed_ident id [] = false
listed_ident id (j ∷ js) = same_ident j id || listed_ident id js

abbrev list_detector : Detector
list_detector = record {
  State = List Ident;
  is_duplicate = λ now id s. (listed_ident id s, id ∷ s);
}

abbrev pub host : ℕ → Address
host n = record { kind = ipv4; host = 10 ∷ 0 ∷ 0 ∷ n ∷ [] }

abbrev pub group : Address
group = record { kind = ipv4; host = 225 ∷ 0 ∷ 0 ∷ 1 ∷ [] }

abbrev pub mac : ℕ → Address
mac n = record { kind = eth; host = 2 ∷ 0 ∷ 0 ∷ 0 ∷ 0 ∷ n ∷ [] }

abbrev pub first_byte : List ℕ → ℕ
first_byte [] = 0
first_byte (b ∷ bs) = b

abbrev pub config : Config
config = record {
  tests = record {
    is_multicast = λ a. ltb 223 (first_byte a.host);
    is_link_local = λ a. first_byte a.host == 169;
    is_valid = λ a. ltb 0 (length a.host);
  };
  is_own_address = λ a. same_bytes a.host (10 ∷ 0 ∷ 0 ∷ 9 ∷ []);
  hash = none;
  idpd_enable = true;
  relay_enabled = true;
  relay_selected = false;
  unicast_enabled = true;
  adaptive_routing = false;
  selector_list = (mac 1).host;
  selector_list_len = 6;
  neighbor_list = (mac 1).host;
  neighbor_list_len = 6;
}

abbrev pub packet : ℕ → Address → Ipv4
packet n dst = record {
  protocol = 17;
  src = host 1;
  dst = dst;
  id = 0 ∷ n ∷ 0 ∷ 0 ∷ [];
  mf = false;
  df = false;
  fragment_offset = 0;
  ttl = 8;
  auth = none;
  esp = none;
}

abbrev iface : List Associate → Iface list_detector
iface as' = record {
  settings = record { resequence = false; is_tunnel = false; is_layered = false; associates = as' };
  detector = [];
  recv_count = 0;
  mrcv_count = 0;
  dups_count = 0;
  asym_count = 0;
  fwd_count = 0;
}

-- Interface 1 is in a group for flooding with 2, and in one for multipoint relays with 2 and 3.
abbrev node : List Associate → Smf list_detector sample_tree
node as' = record {
  plane = record {
    ifaces = λ x. if x == 1 then iface as' else iface [];
    recv_count = 0;
    mrcv_count = 0;
    dups_count = 0;
    asym_count = 0;
    fwd_count = 0;
  };
  ip4_seq_mgr = record {
    seq_mask = 65535;
    seq_global = 0;
    flow_list = no_flows sample_tree (λ x. ([], 0)) (λ x. record { sequence = 0; update_time = 0 });
  };
}

abbrev pub two_groups : List Associate
two_groups =
    record { relay = cf; target = 1 }
    ∷ record { relay = cf; target = 2 }
    ∷ record { relay = s_mpr; target = 2 }
    ∷ record { relay = s_mpr; target = 3 }
    ∷ []

abbrev call : ℕ → Address → Call list_detector sample_tree
call n dst = record {
  request = record { src = 1; mac = mac 1; outbound = false; size = 8; now = 5 };
  packet = packet n dst;
  new_flow = none;
  rand = 0;
}

abbrev pub ident_7 : Ident
ident_7 = record {
  flow = 17 ∷ 10 ∷ 0 ∷ 0 ∷ 1 ∷ 225 ∷ 0 ∷ 0 ∷ 1 ∷ [];
  flow_bits = 72;
  pkt = 0 ∷ 7 ∷ [];
  pkt_bits = 16;
}

first_call :
    (outcome list_detector sample_tree config (call 7 group) (node two_groups)).dst ≡ 1 ∷ 2 ∷ 3 ∷ []
unfolding process_packet identify_packet forward_packet run_sweep renumber finish dst_count
    count_forwarded mark_arrival sweep own_capture turn put_dst turn_check chosen choose
    check_duplicate is_selector is_neighbor count_recv count_mrcv count_dups count_asym count_fwd
    is_duplicate_pkt set_iface check_ipv4 classify ident_of ipsec_class flow_bytes add_hash
    decrement_ttl is_listed listed_from
first_call = refl

process_packet-Sound_example :
    let o = outcome list_detector sample_tree config (call 7 group) (node two_groups) in
    All (May config (call 7 group).request (iface two_groups).settings (packet 7 group)) o.dst
    × (length o.dst ≤ 8)
process_packet-Sound_example =
    process_packet-Sound list_detector sample_tree config (call 7 group) (node two_groups)

abbrev relay_group : List Associate
relay_group = record { relay = e_cds; target = 1 } ∷ record { relay = e_cds; target = 2 } ∷ []

ecds_unicast_dropped_example :
    let o = outcome list_detector sample_tree config (call 7 (host 4)) (node relay_group) in
    (o.dst ≡ []) × (o.value ≡ pos 0)
ecds_unicast_dropped_example =
    ecds_unicast_dropped list_detector sample_tree config (call 7 (host 4)) (node relay_group)
      (refl, (refl, tt)) refl

is_listed-one_of_example :
    is_listed ((2 ∷ 1 ∷ []) ++ (3 ∷ 4 ∷ []) ++ (9 ∷ [])) 4 (3 ∷ 4 ∷ []) ≡ true
is_listed-one_of_example =
    is_listed-one_of (3 ∷ 4 ∷ []) ((2 ∷ 1 ∷ []) ∷ (3 ∷ 4 ∷ []) ∷ []) (9 ∷ []) (omega arith)
      (refl, (refl, tt))

abbrev flood_group : List Associate
flood_group =
    record { relay = cf; target = 1 }
    ∷ record { relay = cf; target = 2 }
    ∷ record { relay = cf; target = 3 }
    ∷ []
