-- ===== src/Forward/Packet.antt =====
-- How Smf::ProcessPacket of src/common/smf.cpp reads an IPv4 packet: whether it may be forwarded at
-- all, and the flow and packet ids under which it is checked for duplicates.
use nrlsmf.Base.{
  ℕ, ◌+◌, ◌-◌, ◌*◌, ◌/◌, ◌%◌, Bool, true, not, ◌&&◌, ◌||◌, Option, none, some, List, [], ◌∷◌, ◌++◌,
  ltb, ◌==◌, if◌then◌else◌, length, take, drop,
}
use nrlsmf.Wire.{Address}

-- What the accessors of ProtoPktIPv4 read: `id` holds the four bytes at GetIDPtr, of the identifier,
-- the flags and the fragment offset. `auth` and `esp` hold the bytes of the security parameter index
-- and of the sequence number, if InitFromBuffer of ProtoPktAUTH or ProtoPktESP accepts the payload.
pub record Ipv4 : Type 0 where
  pub protocol : ℕ
  pub src : Address
  pub dst : Address
  pub id : List ℕ
  pub mf : Bool
  pub df : Bool
  pub fragment_offset : ℕ
  pub ttl : ℕ
  pub auth : Option (List ℕ × List ℕ)
  pub esp : Option (List ℕ × List ℕ)

-- `flowId` and `pktId`, with their sizes in bits.
pub record Ident : Type 0 where
  pub flow : List ℕ
  pub flow_bits : ℕ
  pub pkt : List ℕ
  pub pkt_bits : ℕ

-- The protocol numbers of IPsec.
abbrev pub auth_protocol : ℕ
auth_protocol = 51

abbrev pub esp_protocol : ℕ
esp_protocol = 50

-- What ProtoAddress tells of an address.
pub record AddressTests : Type 0 where
  pub is_multicast : Address → Bool
  pub is_link_local : Address → Bool
  pub is_valid : Address → Bool

-- Members of Smf that ProcessPacket reads and does not change. `hash` is GetValue of the hash
-- algorithm after ComputeHashIPv4; the lists of addresses are whole arrays with their lengths.
pub record Config : Type 0 where
  pub tests : AddressTests
  pub is_own_address : Address → Bool
  pub hash : Option (Ipv4 → List ℕ)
  pub idpd_enable : Bool
  pub relay_enabled : Bool
  pub relay_selected : Bool
  pub unicast_enabled : Bool
  pub adaptive_routing : Bool
  pub selector_list : List ℕ
  pub selector_list_len : ℕ
  pub neighbor_list : List ℕ
  pub neighbor_list_len : ℕ

-- The checks before the packet is identified; `own` also reports a duplicate.
pub data Check : Type 0 where
  go : Check
  skip : Check
  own : Check

-- A destination that is not forwarded to.
unfoldable pub skips_dst : Config → Bool → Ipv4 → Bool
skips_dst c is_tunnel p =
    if not (c.tests.is_multicast p.dst) && not c.unicast_enabled && not c.adaptive_routing
    then true
    else c.tests.is_link_local p.dst && not is_tunnel

unfoldable pub check_ipv4 : Config → Bool → Bool → Ipv4 → Check
unfolding skips_dst
check_ipv4 c is_tunnel outbound p =
    if skips_dst c is_tunnel p
    then skip
    else if not outbound && c.is_own_address p.src
    then own
    else if c.tests.is_link_local p.src && not is_tunnel && not outbound
    then skip
    else go

-- The kinds of packet that are identified differently; `bad` is dropped.
pub data Class : Type 0 where
  unmarked : Class
  fragment : Class
  ipsec : List ℕ → List ℕ → Class
  plain : Class
  bad : Class

unfoldable pub ipsec_class : Option (List ℕ × List ℕ) → Class
ipsec_class none = bad
ipsec_class (some (spi, sequence)) = ipsec spi sequence

unfoldable pub classify : Bool → Ipv4 → Class
unfolding ipsec_class
classify idpd p =
    if not idpd
    then unmarked
    else if p.mf || not (p.fragment_offset == 0)
    then (if p.df then bad else fragment)
    else if p.protocol == auth_protocol
    then ipsec_class p.auth
    else if p.protocol == esp_protocol
    then ipsec_class p.esp
    else plain

-- protocol:srcAddr:dstAddr, before `spi`.
unfoldable pub flow_bytes : Ipv4 → List ℕ → List ℕ
flow_bytes p spi = p.protocol ∷ (take 4 p.src.host ++ (take 4 p.dst.host ++ take 4 spi))

unfoldable pub ident_of : Class → Ipv4 → Option Ident
unfolding flow_bytes
ident_of unmarked p =
    some (record { flow = flow_bytes p []; flow_bits = 8 + 32 + 32; pkt = []; pkt_bits = 0 })
ident_of fragment p =
    some
      (record { flow = flow_bytes p []; flow_bits = 8 + 32 + 32; pkt = take 4 p.id; pkt_bits = 32 })
ident_of (ipsec spi sequence) p = some (record {
  flow = flow_bytes p spi;
  flow_bits = 8 + 32 + 32 + 32;
  pkt = take 4 sequence;
  pkt_bits = 32;
})
ident_of plain p =
    some
      (record { flow = flow_bytes p []; flow_bits = 8 + 32 + 32; pkt = take 2 p.id; pkt_bits = 16 })
ident_of bad p = none

-- SetID.
unfoldable pub set_id : ℕ → Ipv4 → Ipv4
set_id n p = record p { id = n / 256 % 256 ∷ n % 256 ∷ drop 2 p.id }

-- The hash is put behind the packet id, which is of whole bytes.
unfoldable pub add_hash : Config → Ipv4 → Ident → Ident
add_hash c p i = elim c.hash [
  | none ↦ i
  | some hash ↦ record i {
    pkt = i.pkt ++ hash p;
    pkt_bits = (i.pkt_bits / 8 + length (hash p)) * 8;
  }
]

-- The time to live that is forwarded.
unfoldable pub decrement_ttl : Bool → Bool → Ipv4 → Ipv4
decrement_ttl is_tunnel outbound p =
    if ltb 1 p.ttl && not is_tunnel && not outbound then record p { ttl = p.ttl - 1 } else p
