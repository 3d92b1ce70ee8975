-- ===== src/Elastic/Nack.antt =====
-- ElasticNack of include/elasticMsg.h and src/common/elasticMsg.cpp: the upstream address that lost
-- packets, and the range of their sequence numbers.
use nrlsmf.Base.{
  ℕ, ◌+◌, ◌*◌, Bool, true, false, Option, none, some, ltb, ◌==◌, if◌then◌else◌, bit_and, length,
}
use nrlsmf.Wire.{Address, Packet, copy_in}
use nrlsmf.Elastic.{
  msg_nack, address_type, get_address_field_words, set_type, set_msg_length, address_at,
}

module _ (P : Packet) where
  open P use {State, Buffer, attach, buffer_length, get_uint8, set_uint8, get_word16, set_word16}

  unfoldable pub nack_start : State → State
  nack_start s = set_msg_length P 2 (set_type P msg_nack s)

  -- InitIntoBuffer.
  unfoldable pub nack_init_into_buffer : Option Buffer → ℕ → State → Bool × State
  nack_init_into_buffer none bytes s =
      if ltb (buffer_length s) 4 then (false, s) else (true, nack_start s)
  nack_init_into_buffer (some b) bytes s =
      if ltb bytes 4 then (false, s) else (true, nack_start (attach b s))

  -- GetAddressType.
  unfoldable pub nack_address_type : State → ℕ
  nack_address_type s = bit_and (get_uint8 3 s) 15

  -- OffsetSeqStart and OffsetSeqStop, in 16-bit words.
  unfoldable pub offset_seq_start : State → ℕ
  offset_seq_start s =
      let t = nack_address_type s in
      if t == 1 then 4 else if t == 2 then 10 else if t == 3 then 6 else 2

  unfoldable pub offset_seq_stop : State → ℕ
  offset_seq_stop s = offset_seq_start s + 1

  unfoldable pub set_seq_start : ℕ → State → State
  set_seq_start v s = set_word16 (offset_seq_start s) v s

  unfoldable pub set_seq_stop : ℕ → State → State
  set_seq_stop v s = set_word16 (offset_seq_stop s) v s

  unfoldable pub get_seq_start : State → ℕ
  get_seq_start s = get_word16 (offset_seq_start s) s

  unfoldable pub get_seq_stop : State → ℕ
  get_seq_stop s = get_word16 (offset_seq_stop s) s

  -- SetUpstreamAddress.
  unfoldable pub set_upstream_address : Address → State → Bool × State
  set_upstream_address a s =
      let t = address_type a.kind in
      if t == 0
      then (false, s)
      else if ltb (buffer_length s) (4 + 4 * get_address_field_words t)
      then (false, s)
      else (true, set_msg_length P (4 + length a.host + 4) (set_uint8 3 t (copy_in P 4 a.host s)))

  -- GetUpstreamAddress.
  unfoldable pub get_upstream_address : State → Option Address
  get_upstream_address s = address_at P (nack_address_type s) 4 s
