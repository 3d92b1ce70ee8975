-- ===== src/Elastic/Adv.antt =====
-- ElasticAdv of include/elasticMsg.h and src/common/elasticMsg.cpp: a flow description with the time
-- to live, the hop count, the metric and the address of the advertiser.
use nrlsmf.Base.{
  ℕ, ◌+◌, ◌*◌, ◌/◌, Bool, true, false, Option, none, some, List, ltb, ◌==◌, if◌then◌else◌, bit_and,
}
use nrlsmf.Wire.{Kind, Address, Packet, copy_in}
use nrlsmf.Elastic.{
  get_dst_addr, set_dst_addr, set_src_addr, flow_init_from_buffer, msg_adv, flag_source,
  address_type, get_address_field_words, flag_is_set, get_address_type, address_at, grow, set_low,
  offset_src_addr, offset_past_flow,
}
use nrlsmf.Elastic.Ack.{fresh}

-- ComputeLength.
unfoldable pub compute_length : Kind → Kind → Bool → ℕ
compute_length a v source =
    8
    + (if source then 2 else 1) * 4 * get_address_field_words (address_type a)
    + 4
    + 4 * get_address_field_words (address_type v)

module _ (P : Packet) where
  open P use {State, Buffer, attach, buffer_length, get_uint8, set_uint8, get_word16, set_word16}

  unfoldable pub adv_init_into_buffer : Option Buffer → ℕ → State → Bool × State
  adv_init_into_buffer none bytes s =
      if ltb (buffer_length s) 8 then (false, s) else (true, fresh P msg_adv s)
  adv_init_into_buffer (some b) bytes s =
      if ltb bytes 8 then (false, s) else (true, fresh P msg_adv (attach b s))

  -- InitFromBuffer, GetDstAddr, SetDstAddr and SetSrcAddr, which are the code of ElasticAck again.
  unfoldable pub adv_init_from_buffer : Option Buffer → State → Bool × State
  adv_init_from_buffer b s = flow_init_from_buffer P b s

  unfoldable pub adv_get_dst_addr : State → Option Address
  adv_get_dst_addr s = get_dst_addr P s

  unfoldable pub adv_set_dst_addr : Address → State → Bool × State
  adv_set_dst_addr a s = set_dst_addr P a s

  unfoldable pub adv_set_src_addr : Address → State → Bool × State
  adv_set_src_addr a s = set_src_addr P a s

  unfoldable pub get_id : State → ℕ
  get_id s = get_word16 1 s

  unfoldable pub set_id : ℕ → State → State
  set_id v s = set_word16 1 v s

  unfoldable pub get_adv_type : State → ℕ
  get_adv_type s = bit_and (get_uint8 5 s) 15

  -- GetSrcAddr asks for the source flag.
  unfoldable pub adv_get_src_addr : State → Option Address
  adv_get_src_addr s =
      if flag_is_set P flag_source s
      then address_at P (get_address_type P s) (4 * offset_src_addr P s) s
      else none

  -- OffsetTTL and OffsetHopCount in bytes, OffsetMetric in 16-bit words, OffsetAdvAddr in words.
  unfoldable pub offset_ttl : State → ℕ
  offset_ttl s = offset_past_flow P s * 4

  unfoldable pub offset_hop_count : State → ℕ
  offset_hop_count s = offset_ttl s + 1

  unfoldable pub offset_metric : State → ℕ
  offset_metric s = (offset_hop_count s + 1) / 2

  unfoldable pub offset_adv_addr : State → ℕ
  offset_adv_addr s = (offset_metric s + 1) / 2

  unfoldable pub get_ttl : State → ℕ
  get_ttl s = get_uint8 (offset_ttl s) s

  unfoldable pub get_hop_count : State → ℕ
  get_hop_count s = get_uint8 (offset_hop_count s) s

  -- GetMetric, before DecodeMetric.
  unfoldable pub get_metric : State → ℕ
  get_metric s = get_word16 (offset_metric s) s

  unfoldable pub get_adv_addr : State → Option Address
  get_adv_addr s = address_at P (get_address_type P s) (4 * offset_adv_addr s) s

  -- SetTTL and SetHopCount: the offset is read again after the length is set.
  unfoldable pub set_ttl : ℕ → State → Bool × State
  set_ttl v s =
      let need = offset_ttl s + 1 in
      let grown = grow P need s in
      if ltb (buffer_length s) need
      then (false, s)
      else (true, set_uint8 (offset_ttl grown) v grown)

  unfoldable pub set_hop_count : ℕ → State → Bool × State
  set_hop_count v s =
      let need = offset_hop_count s + 1 in
      let grown = grow P need s in
      if ltb (buffer_length s) need
      then (false, s)
      else (true, set_uint8 (offset_hop_count grown) v grown)

  -- SetMetric, of what EncodeMetric returns.
  unfoldable pub set_metric : ℕ → State → Bool × State
  set_metric field s =
      let need = 2 * offset_metric s + 2 in
      let grown = grow P need s in
      if ltb (buffer_length s) need
      then (false, s)
      else (true, set_word16 (offset_metric grown) field grown)

  unfoldable pub put_adv_addr : ℕ → List ℕ → State → Bool × State
  put_adv_addr t host s =
      let need = 4 * offset_adv_addr s + 4 * get_address_field_words t in
      if ltb (buffer_length s) need
      then (false, s)
      else (let typed = set_low P 5 t (grow P need s) in
          (true, copy_in P (4 * offset_adv_addr typed) host typed))

  unfoldable pub set_adv_addr : Address → State → Bool × State
  set_adv_addr a s =
      if address_type a.kind == 0 then (false, s) else put_adv_addr (address_type a.kind) a.host s
