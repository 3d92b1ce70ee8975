-- ===== src/Elastic/Tests.antt =====
-- Concrete messages.
use nrlsmf.Base.{ℕ, ◌+◌, ◌*◌, ◌≡◌, refl, true, some, [], ◌∷◌, arith, get_elem?, ◌==◌, if◌then◌else◌}
use nrlsmf.Wire.{ipv4, eth, Address, Known}
use nrlsmf.Wire.Sample.{Store, sample_packet, sample_packet-Laws, blank}
use nrlsmf.Elastic.{
  address_type, get_msg_length, get_dst_addr, attached, init_from_buffer, flow_init_from_buffer,
}
use nrlsmf.Elastic.Ack.{ack_get_src_addr, get_upstream_addr}
use nrlsmf.Elastic.Adv.{
  adv_get_dst_addr, adv_init_from_buffer, adv_get_src_addr, get_ttl, get_hop_count, get_metric,
  get_adv_addr,
}
use nrlsmf.Elastic.Nack.{get_upstream_address, get_seq_start, get_seq_stop, offset_seq_stop}
use nrlsmf.Elastic.AckTrip.{build_ack, ack_round_trip}
use nrlsmf.Elastic.AdvRead.{build_adv, adv_round_trip}
use nrlsmf.Elastic.NackTrip.{build_nack, nack_round_trip, nack_msg_length}
use nrlsmf.Elastic.Parse.{Inside, init_from_buffer-Inside, flow_init_from_buffer-Inside}

abbrev group : Address
group = record { kind = ipv4; host = 224 ∷ 1 ∷ 2 ∷ 3 ∷ [] }

abbrev sender : Address
sender = record { kind = ipv4; host = 10 ∷ 0 ∷ 0 ∷ 1 ∷ [] }

abbrev upstream : Address
upstream = record { kind = eth; host = 2 ∷ 0 ∷ 0 ∷ 0 ∷ 0 ∷ 7 ∷ [] }

group-Known : Known group
group-Known = record {
  sized = refl;
  bytes = (omega arith, (omega arith, (omega arith, (omega arith, tt))));
  some_kind = omega arith;
}

sender-Known : Known sender
sender-Known = record {
  sized = refl;
  bytes = (omega arith, (omega arith, (omega arith, (omega arith, tt))));
  some_kind = omega arith;
}

upstream-Known : Known upstream
upstream-Known = record {
  sized = refl;
  bytes =
      (omega arith, (omega arith, (omega arith, (omega arith, (omega arith, (omega arith, tt))))));
  some_kind = omega arith;
}

ack_round_trip_example :
    let r =
      build_ack sample_packet sample_packet-Laws group sender
        (upstream ∷ upstream ∷ [])
        (blank 64) in
    (r.0 ≡ true)
    × (get_dst_addr sample_packet r.1 ≡ some group)
    × (ack_get_src_addr sample_packet r.1 ≡ some sender)
    × ((i : ℕ) → get_upstream_addr sample_packet i r.1 ≡ get_elem? (upstream ∷ upstream ∷ []) i)
    × (r.1.used ≡ 32)
ack_round_trip_example =
    ack_round_trip sample_packet sample_packet-Laws (blank 64) group sender eth
      (upstream ∷ upstream ∷ []) group-Known sender-Known refl
      ((upstream-Known, refl), ((upstream-Known, refl), tt)) (omega arith) (omega arith)

adv_round_trip_example :
    let r = build_adv sample_packet sample_packet-Laws group sender 8 1 700 sender (blank 64) in
    (r.0 ≡ true)
    × (adv_get_dst_addr sample_packet r.1 ≡ some group)
    × (adv_get_src_addr sample_packet r.1 ≡ some sender)
    × (get_ttl sample_packet r.1 ≡ 8)
    × (get_hop_count sample_packet r.1 ≡ 1)
    × (get_metric sample_packet r.1 ≡ 700)
    × (get_adv_addr sample_packet r.1 ≡ some sender)
adv_round_trip_example =
    adv_round_trip sample_packet sample_packet-Laws (blank 64) group sender sender 8 1 700
      group-Known sender-Known sender-Known refl refl (omega arith) (omega arith) (omega arith)
      (omega arith)

nack_round_trip_example :
    let r = build_nack sample_packet sample_packet-Laws upstream 65530 4 (blank 64) in
    (r.0 ≡ true)
    × (get_upstream_address sample_packet r.1 ≡ some upstream)
    × (get_seq_start sample_packet r.1 ≡ 65530)
    × (get_seq_stop sample_packet r.1 ≡ 4)
nack_round_trip_example =
    nack_round_trip sample_packet sample_packet-Laws (blank 64) upstream 65530 4 upstream-Known
      (omega arith) (omega arith) (omega arith)

nack_msg_length_example :
    let r = build_nack sample_packet sample_packet-Laws upstream 65530 4 (blank 64) in
    get_msg_length sample_packet r.1 + (if address_type upstream.kind == 3 then 4 else 0)
    ≡ 2 * (offset_seq_stop sample_packet r.1 + 1)
nack_msg_length_example =
    nack_msg_length sample_packet sample_packet-Laws (blank 64) upstream 65530 4 upstream-Known
      (omega arith) (omega arith) (omega arith)

-- A buffer of 16 bytes that holds a message of 12.
abbrev received : Store
received = record { cells = λ i. if i == 1 then 3 else 0; size = 16; used = 0 }

abbrev idle : Store
idle = blank 0

accepts : (init_from_buffer sample_packet (some received) idle).0 ≡ true
unfolding init_from_buffer attached get_msg_length
accepts = refl

flow_accepts : (flow_init_from_buffer sample_packet (some received) idle).0 ≡ true
unfolding flow_init_from_buffer attached get_msg_length
flow_accepts = refl

init_from_buffer-Inside_example :
    Inside sample_packet sample_packet-Laws
      (some received)
      idle
      (init_from_buffer sample_packet (some received) idle).1
init_from_buffer-Inside_example =
    init_from_buffer-Inside sample_packet sample_packet-Laws (some received) idle accepts

flow_init_from_buffer-Inside_example :
    ((adv_init_from_buffer sample_packet (some received) idle).0 ≡ true)
    × Inside sample_packet sample_packet-Laws
        (some received)
        idle
        (flow_init_from_buffer sample_packet (some received) idle).1
    × Inside sample_packet sample_packet-Laws
        (some received)
        idle
        (adv_init_from_buffer sample_packet (some received) idle).1
flow_init_from_buffer-Inside_example =
    flow_init_from_buffer-Inside sample_packet sample_packet-Laws (some received) idle flow_accepts
