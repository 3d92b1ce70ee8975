-- ===== src/Elastic.antt =====
-- ElasticMsg of include/elasticMsg.h and src/common/elasticMsg.cpp: what the messages of Elastic
-- Multicast share, the header, the flow description and its addresses.
pub mod Ack
pub mod Adv
pub mod Nack
pub mod Flow
pub mod RoundTrip
pub mod Source
pub mod Upstream
pub mod UpstreamTrip
pub mod AckTrip
pub mod AdvTrip
pub mod AdvBuild
pub mod AdvRead
pub mod NackTrip
pub mod Parse
mod Tests
use nrlsmf.Base.{
  ℕ, ◌+◌, ◌*◌, ◌/◌, ◌%◌, Bool, true, false, not, ◌&&◌, Option, none, some, List, ltb, leb, ◌==◌,
  if◌then◌else◌, bit_and, bit_or,
}
use nrlsmf.Wire.{Kind, ipv4, ipv6, eth, other, Address, address_bytes, Packet, copy_in, copy_out}

-- Type, AddressType and Flag.
abbrev pub msg_ack : ℕ
msg_ack = 1

abbrev pub msg_adv : ℕ
msg_adv = 2

abbrev pub msg_nack : ℕ
msg_nack = 3

abbrev pub flag_source : ℕ
flag_source = 1

abbrev pub flag_protocol : ℕ
flag_protocol = 2

abbrev pub flag_class : ℕ
flag_class = 4

-- GetAddressType of a ProtoAddress type.
unfoldable pub address_type : Kind → ℕ
address_type ipv4 = 1
address_type ipv6 = 2
address_type eth = 3
address_type other = 0

-- GetAddressFieldWords.
unfoldable pub get_address_field_words : ℕ → ℕ
get_address_field_words t = if t == 1 then 1 else if t == 2 then 4 else if t == 3 then 2 else 0

-- The switch of the `Get...Addr` methods on an address type.
unfoldable pub kind_of : ℕ → Option Kind
kind_of t =
    if t == 1 then some ipv4 else if t == 2 then some ipv6 else if t == 3 then some eth else none

module _ (P : Packet) where
  open P use {
    State, Buffer, attach, detach, buffer_length, get_length, set_length, get_uint8, set_uint8,
    set_raw_host_address,
  }

  unfoldable pub set_type : ℕ → State → State
  set_type t s = set_uint8 0 t s

  unfoldable pub get_type : State → ℕ
  get_type s = get_uint8 0 s

  unfoldable pub set_msg_length : ℕ → State → State
  set_msg_length n s = set_length n (set_uint8 1 (n / 4 % 256) s)

  unfoldable pub get_msg_length : State → ℕ
  get_msg_length s = get_uint8 1 s * 4

  -- The buffer that a parser starts from.
  unfoldable pub attached : Option Buffer → State → State
  attached none s = set_length 0 s
  attached (some b) s = attach b s

  unfoldable pub detached : Option Buffer → State → State
  detached none s = s
  detached (some b) s = detach s

  -- ElasticMsg::InitFromBuffer.
  unfoldable pub init_from_buffer : Option Buffer → State → Bool × State
  init_from_buffer b s =
      let a = attached b s in
      if ltb 1 (buffer_length a)
      then (if ltb (buffer_length a) (get_msg_length a)
          then (false, a)
          else (true, set_length (get_msg_length a) a))
      else (false, a)

  -- InitFromBuffer of ElasticAck and ElasticAdv.
  unfoldable pub flow_init_from_buffer : Option Buffer → State → Bool × State
  flow_init_from_buffer b s =
      let a = attached b s in
      if leb 7 (buffer_length a) && leb (get_msg_length a) (buffer_length a)
      then (true, set_length (get_msg_length a) a)
      else (false, set_length 0 (detached b a))

  -- SetFlag and FlagIsSet.
  unfoldable pub set_flag : ℕ → State → State
  set_flag f s = set_uint8 4 (bit_or (get_uint8 4 s) (f * 16) % 256) s

  unfoldable pub flag_is_set : ℕ → State → Bool
  flag_is_set f s = not (bit_and f (get_uint8 4 s / 16) == 0)

  -- GetAddressType.
  unfoldable pub get_address_type : State → ℕ
  get_address_type s = bit_and (get_uint8 4 s) 15

  -- An address at a byte offset, of a type.
  unfoldable pub address_at : ℕ → ℕ → State → Option Address
  address_at t off s = elim (kind_of t) [
    | none ↦ none
    | some k ↦ set_raw_host_address k (copy_out P off (address_bytes k) s)
  ]

  -- The length is set if it is below what is needed.
  unfoldable pub grow : ℕ → State → State
  grow n s = if ltb (get_length s) n then set_msg_length n s else s

  -- The low four bits of the byte at `i`.
  unfoldable pub set_low : ℕ → ℕ → State → State
  set_low i t s = set_uint8 i (bit_or (bit_and (get_uint8 i s) 240) t) s

  -- OffsetSrcAddr, in words.
  unfoldable pub offset_src_addr : State → ℕ
  offset_src_addr s = 2 + get_address_field_words (get_address_type s)

  -- The offset past the flow description, in words.
  unfoldable pub offset_past_flow : State → ℕ
  offset_past_flow s =
      if flag_is_set flag_source s
      then offset_src_addr s + get_address_field_words (get_address_type s)
      else offset_src_addr s

  -- SetDstAddr and SetSrcAddr with an address type.
  unfoldable pub put_dst_addr : ℕ → List ℕ → State → Bool × State
  put_dst_addr t host s =
      let need = 8 + 4 * get_address_field_words t in
      if ltb (buffer_length s) need
      then (false, s)
      else (true, copy_in P 8 host (set_low 4 t (grow need s)))

  -- The offset is read after the type is set.
  unfoldable pub put_src_addr : ℕ → List ℕ → State → Bool × State
  put_src_addr t host s =
      let need = 8 + 8 * get_address_field_words t in
      if ltb (buffer_length s) need
      then (false, s)
      else (let typed = set_low 4 t (set_flag flag_source (grow need s)) in
          (true, copy_in P (4 * offset_src_addr typed) host typed))

  -- SetDstAddr and SetSrcAddr of a ProtoAddress: a type that is not known is an error.
  unfoldable pub set_dst_addr : Address → State → Bool × State
  set_dst_addr a s =
      if address_type a.kind == 0 then (false, s) else put_dst_addr (address_type a.kind) a.host s

  unfoldable pub set_src_addr : Address → State → Bool × State
  set_src_addr a s =
      if address_type a.kind == 0 then (false, s) else put_src_addr (address_type a.kind) a.host s

  unfoldable pub get_dst_addr : State → Option Address
  get_dst_addr s = address_at (get_address_type s) 8 s

  -- SetProtocol, SetTrafficClass and the methods that read them.
  unfoldable pub set_protocol : ℕ → State → State
  set_protocol v s = set_flag flag_protocol (set_uint8 6 v s)

  unfoldable pub set_traffic_class : ℕ → State → State
  set_traffic_class v s = set_flag flag_class (set_uint8 7 v s)

  unfoldable pub get_protocol : State → ℕ
  get_protocol s = get_uint8 6 s

  unfoldable pub get_traffic_class : State → ℕ
  get_traffic_class s = get_uint8 7 s

  -- IsValid.
  unfoldable pub is_valid : State → Bool
  is_valid s = ltb 8 (get_length s)
