-- ===== src/Elastic/Ack.antt =====
-- ElasticAck of include/elasticMsg.h and src/common/elasticMsg.cpp: a flow description and up to 15
-- upstream addresses.
use nrlsmf.Base.{
  ℕ, ◌+◌, ◌*◌, ◌/◌, ◌%◌, ◌-◌, Bool, true, false, not, ◌&&◌, Option, none, some, List, ltb, leb,
  ◌==◌, if◌then◌else◌, bit_and, bit_or, length, replicate,
}
use nrlsmf.Wire.{Address, Packet, copy_in}
use nrlsmf.Elastic.{
  msg_ack, address_type, get_address_field_words, set_type, set_msg_length, get_address_type,
  address_at, set_low, offset_src_addr, offset_past_flow,
}

module _ (P : Packet) where
  open P use {State, Buffer, attach, buffer_length, get_length, get_uint8, set_uint8}

  -- What InitIntoBuffer does once the buffer is there: 8 bytes of zeros, the type and the length.
  unfoldable pub fresh : ℕ → State → State
  fresh t s = set_msg_length P 8 (set_type P t (copy_in P 0 (replicate 8 0) s))

  -- InitIntoBuffer.
  unfoldable pub ack_init_into_buffer : Option Buffer → ℕ → State → Bool × State
  ack_init_into_buffer none bytes s =
      if ltb (buffer_length s) 8 then (false, s) else (true, fresh msg_ack s)
  ack_init_into_buffer (some b) bytes s =
      if ltb bytes 8 then (false, s) else (true, fresh msg_ack (attach b s))

  unfoldable pub get_upstream_list_length : State → ℕ
  get_upstream_list_length s = get_uint8 5 s / 16

  unfoldable pub get_upstream_list_type : State → ℕ
  get_upstream_list_type s = bit_and (get_uint8 5 s) 15

  -- GetSrcAddr does not ask for the source flag.
  unfoldable pub ack_get_src_addr : State → Option Address
  ack_get_src_addr s = address_at P (get_address_type P s) (4 * offset_src_addr P s) s

  unfoldable pub get_upstream_addr : ℕ → State → Option Address
  get_upstream_addr index s =
      let t = get_upstream_list_type s in
      if leb (get_upstream_list_length s) index
      then none
      else address_at P t (4 * offset_past_flow P s + index * (4 * get_address_field_words t)) s

  -- The type of the list is set with its first address.
  unfoldable pub type_list : ℕ → ℕ → State → State
  type_list index t s = if index == 0 then set_low P 5 t s else s

  -- The address after `index` others, with zeros up to a whole word, and the new list length.
  unfoldable pub write_upstream : ℕ → ℕ → List ℕ → State → State
  write_upstream index field host s =
      let ptr = 4 * offset_past_flow P s + index * field in
      let padded =
        if ltb (length host) field
        then copy_in P (ptr + length host) (replicate (field - length host) 0) s
        else s in
      let written = copy_in P ptr host padded in
      set_uint8 5 (bit_or (bit_and (get_uint8 5 written) 15) ((index + 1) * 16 % 256)) written

  -- AppendUpstreamAddr.
  unfoldable pub append_upstream_addr : Address → State → Bool × State
  append_upstream_addr a s =
      let t = address_type a.kind in
      let field = 4 * get_address_field_words t in
      let need = get_length s + field in
      let index = get_upstream_list_length s in
      if t == 0
      then (false, s)
      else if ltb (buffer_length s) need
      then (false, s)
      else if leb 15 index
      then (false, s)
      else if ltb 0 index && not (get_upstream_list_type s == t)
      then (false, s)
      else (true, set_msg_length P need (write_upstream index field a.host (type_list index t s)))
