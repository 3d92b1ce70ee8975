-- ===== src/Wire/Sample.antt =====
-- A packet buffer that meets the laws: its bytes as a function of the offset. The tests run on it.
use nrlsmf.Base.{ℕ, ◌+◌, ◌*◌, ◌/◌, ◌%◌, refl, none, some, arith, ◌==◌, if◌then◌else◌, length}
use nrlsmf.Wire.{Packet, Laws, address_bytes}

pub record Store : Type 0 where
  pub cells : ℕ → ℕ
  pub size : ℕ
  pub used : ℕ

abbrev pub put_cell : ℕ → ℕ → Store → Store
put_cell i v s = record s { cells = λ j. if j == i then v % 256 else s.cells j }

abbrev pub sample_packet : Packet
sample_packet = record {
  State = Store;
  Buffer = Store;
  attach = λ b s. b;
  detach = λ s. s;
  buffer_length = λ s. s.size;
  get_length = λ s. s.used;
  set_length = λ n s. record s { used = n };
  get_uint8 = λ i s. s.cells i % 256;
  set_uint8 = put_cell;
  get_word16 = λ i s. s.cells (2 * i) % 256 * 256 + s.cells (2 * i + 1) % 256;
  set_word16 = λ i v s. put_cell (2 * i + 1) v (put_cell (2 * i) (v / 256) s);
  set_raw_host_address = λ k host.
      if length host == address_bytes k then some (record { kind = k; host = host }) else none;
}

pub sample_packet-Laws : Laws sample_packet
sample_packet-Laws = record {
  get_uint8-byte = λ i s. omega arith;
  get_uint8-set = λ i j v s h. ground arith;
  buffer_length-set = λ i v s. refl;
  get_length-set = λ i v s. refl;
  get_uint8-set_length = λ n j s. refl;
  buffer_length-set_length = λ n s. refl;
  get_length-set_length = λ n s h. refl;
  get_word16_is = λ i s. refl;
  set_word16_is = λ i v s. refl;
  set_raw_some = λ k host e. ground (arith, e);
}

-- An empty buffer of a size.
abbrev pub blank : ℕ → Store
blank n = record { cells = λ i. 0; size = n; used = 0 }
