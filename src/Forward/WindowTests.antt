-- ===== src/Forward/WindowTests.antt =====
-- A concrete run of Smf::ProcessPacket with SmfDpdWindow objects as detectors.
use nrlsmf.Base.{
  ℕ, ◌≡◌, ◌≤◌, refl, true, Option, none, some, List, [], ◌∷◌, arith, ◌==◌, false, if◌then◌else◌,
}
use nrlsmf.Wire.{Address}
use nrlsmf.Dpd.Flows.{no_flows, find_flow, set_item, append, flow_init, to_tail}
use nrlsmf.Dpd.Window.{window_init, is_duplicate, compare_last, serial_delta, slide, look_back}
use nrlsmf.Dpd.Sample.{sample, sample-Laws}
use nrlsmf.Dpd.SampleKeys.{sample_keys, sample_keys-Laws, next_address, look_up-lt}
use nrlsmf.Dpd.Detector.{
  DpdWindow, dpd_init, id_value, value_from, dpd_is_duplicate, new_flow, known_flow, id_mask,
}
use nrlsmf.Dpd.Detector.Others.{IsFresh}
use nrlsmf.Dpd.Ring.{ahead}
use nrlsmf.Dpd.Tree.{bytes_of}
use nrlsmf.Forward.Packet.{
  check_ipv4, classify, ident_of, ipsec_class, flow_bytes, add_hash, decrement_ttl,
}
use nrlsmf.Forward.Macs.{is_listed, listed_from}
use nrlsmf.Forward.Plane.{
  Iface, Associate, sweep, own_capture, turn, put_dst, turn_check, chosen, choose, check_duplicate,
  is_selector, is_neighbor, count_recv, count_mrcv, count_dups, count_asym, count_fwd,
  is_duplicate_pkt, set_iface,
}
use nrlsmf.Forward.Process.{
  Smf, process_packet, identify_packet, forward_packet, run_sweep, renumber, finish, dst_count,
  count_forwarded, mark_arrival,
}
use nrlsmf.Forward.Delivery.{Call, times_sent, all_pass}
use nrlsmf.Forward.Tests.{host, group, mac, config, packet, two_groups, ident_7}
use nrlsmf.Forward.Window.{window_detector, is_near_ident, window_forwards_once}

-- Flows stand one behind the other in memory, behind those that are listed.
abbrev new_address : DpdWindow sample_keys sample → Option ℕ
new_address d = some (next_address d.flow_list.tree)

new_address-IsFresh : IsFresh sample_keys sample_keys-Laws sample new_address
new_address-IsFresh d j x y a e = λ same.
    let at : next_address d.flow_list.tree ≡ x = cc in
    omega (arith, at, same, look_up-lt j y d.flow_list.tree e)

abbrev unused : DpdWindow sample_keys sample
unused = record {
  window_size = 0;
  window_past_max = 0;
  flow_list =
      no_flows sample_keys (λ x. ([], 0))
        (λ x. record {
          window = record {
            bitmask = record { bits = []; last = none; width = 0; mask = 0 };
            window_past_max = 0;
          };
          update_time = 0;
        });
}

-- What Interface::Init makes.
abbrev made : DpdWindow sample_keys sample
made = (dpd_init sample_keys sample 1024 1024 unused).1

abbrev iface : List Associate → Iface (window_detector sample_keys sample new_address)
iface as' = record {
  settings = record { resequence = false; is_tunnel = false; is_layered = false; associates = as' };
  detector = made;
  recv_count = 0;
  mrcv_count = 0;
  dups_count = 0;
  asym_count = 0;
  fwd_count = 0;
}

abbrev node : Smf (window_detector sample_keys sample new_address) sample_keys
node = record {
  plane = record {
    ifaces = λ x. if x == 1 then iface two_groups else iface [];
    recv_count = 0;
    mrcv_count = 0;
    dups_count = 0;
    asym_count = 0;
    fwd_count = 0;
  };
  ip4_seq_mgr = record {
    seq_mask = 65535;
    seq_global = 0;
    flow_list = no_flows sample_keys (λ x. ([], 0)) (λ x. record { sequence = 0; update_time = 0 });
  };
}

abbrev call : ℕ → Address → Call (window_detector sample_keys sample new_address) sample_keys
call n dst = record {
  request = record { src = 1; mac = mac 1; outbound = false; size = 8; now = 5 };
  packet = packet n dst;
  new_flow = none;
  rand = 0;
}

-- Packet 7 comes twice; between come one of the flow and one of another flow.
abbrev calls : List (Call (window_detector sample_keys sample new_address) sample_keys)
calls = call 7 group ∷ call 8 group ∷ call 7 (host 4) ∷ call 7 group ∷ []

near_calls :
    all_pass
      (window_detector sample_keys sample new_address)
      sample_keys
      config
      (is_near_ident sample_keys 15 0 1024 ident_7)
      calls
      node
    ≡ true
unfolding all_pass process_packet identify_packet forward_packet run_sweep renumber finish dst_count
    count_forwarded mark_arrival sweep own_capture turn put_dst turn_check chosen choose
    check_duplicate is_selector is_neighbor count_recv count_mrcv count_dups count_asym count_fwd
    is_duplicate_pkt set_iface check_ipv4 classify ident_of ipsec_class flow_bytes add_hash
    decrement_ttl is_listed listed_from id_value value_from bytes_of ahead dpd_is_duplicate
    find_flow dpd_init no_flows new_flow window_init set_item append flow_init known_flow id_mask
    is_duplicate compare_last serial_delta to_tail slide look_back
near_calls = refl

sent_once_in_all :
    times_sent
      (window_detector sample_keys sample new_address)
      sample_keys
      config
      2
      ident_7
      calls
      node
    ≡ 1
unfolding times_sent process_packet identify_packet forward_packet run_sweep renumber finish
    dst_count count_forwarded mark_arrival sweep own_capture turn put_dst turn_check chosen choose
    check_duplicate is_selector is_neighbor count_recv count_mrcv count_dups count_asym count_fwd
    is_duplicate_pkt set_iface check_ipv4 classify ident_of ipsec_class flow_bytes add_hash
    decrement_ttl is_listed listed_from id_value value_from bytes_of ahead dpd_is_duplicate
    find_flow dpd_init no_flows new_flow window_init set_item append flow_init known_flow id_mask
    is_duplicate compare_last serial_delta to_tail slide look_back
sent_once_in_all = refl

own_number : is_near_ident sample_keys 15 0 1024 ident_7 ident_7 ≡ true
unfolding id_value value_from bytes_of ahead
own_number = refl

window_forwards_once_example :
    times_sent
      (window_detector sample_keys sample new_address)
      sample_keys
      config
      2
      ident_7
      calls
      node
    ≤ 1
window_forwards_once_example =
    window_forwards_once sample_keys sample_keys-Laws sample sample-Laws new_address
      new_address-IsFresh 15 0 1024 (omega arith) (omega arith) (omega arith) ident_7 own_number
      config 2 1024 unused calls node (omega arith) refl near_calls
