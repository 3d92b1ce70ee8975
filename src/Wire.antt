-- ===== src/Wire.antt =====
-- Messages in packet buffers: Protolib's ProtoPkt, whose accessors the message classes call and the
-- repository does not hold, as the parameter `Packet` with its `Laws`, and `memcpy` over it.
pub mod Nibbles
pub mod Copy
pub mod Sample
use nrlsmf.Base.{
  ℕ, zero, suc, ◌+◌, ◌*◌, ◌/◌, ◌%◌, ◌<◌, ◌≤◌, ◌≡◌, Option, none, some, List, [], ◌∷◌, ◌==◌,
  if◌then◌else◌, length, All,
}

-- ProtoAddress::Type, as far as the messages tell them apart.
pub data Kind : Type 0 where
  ipv4 : Kind
  ipv6 : Kind
  eth : Kind
  other : Kind

-- A ProtoAddress: its type, and the bytes of GetRawHostAddress.
pub record Address : Type 0 where
  pub kind : Kind
  pub host : List ℕ

-- The bytes of an address of a type.
abbrev pub address_bytes : Kind → ℕ
address_bytes ipv4 = 4
address_bytes ipv6 = 16
address_bytes eth = 6
address_bytes other = 0

pub record Packet : Type 1 where
  pub State : Type 0
  pub Buffer : Type 0
  pub attach : Buffer → State → State
  pub detach : State → State
  pub buffer_length : State → ℕ
  pub get_length : State → ℕ
  pub set_length : ℕ → State → State
  pub get_uint8 : ℕ → State → ℕ
  pub set_uint8 : ℕ → ℕ → State → State
  -- Offsets of 16-bit words, in network order.
  pub get_word16 : ℕ → State → ℕ
  pub set_word16 : ℕ → ℕ → State → State
  -- ProtoAddress::SetRawHostAddress.
  pub set_raw_host_address : Kind → List ℕ → Option Address

module _ (P : Packet) where
  open P use {
    State, buffer_length, get_length, set_length, get_uint8, set_uint8, get_word16, set_word16,
    set_raw_host_address,
  }

  pub record Laws : Type 0 where
    pub get_uint8-byte : (i : ℕ) (s : State) → get_uint8 i s < 256
    pub get_uint8-set :
        (i j v : ℕ) (s : State)
        → i < buffer_length s
        → get_uint8 j (set_uint8 i v s) ≡ (if j == i then v % 256 else get_uint8 j s)
    pub buffer_length-set :
        (i v : ℕ) (s : State) → buffer_length (set_uint8 i v s) ≡ buffer_length s
    pub get_length-set : (i v : ℕ) (s : State) → get_length (set_uint8 i v s) ≡ get_length s
    pub get_uint8-set_length : (n j : ℕ) (s : State) → get_uint8 j (set_length n s) ≡ get_uint8 j s
    pub buffer_length-set_length :
        (n : ℕ) (s : State) → buffer_length (set_length n s) ≡ buffer_length s
    pub get_length-set_length :
        (n : ℕ) (s : State) → n ≤ buffer_length s → get_length (set_length n s) ≡ n
    pub get_word16_is :
        (i : ℕ) (s : State) → get_word16 i s ≡ get_uint8 (2 * i) s * 256 + get_uint8 (2 * i + 1) s
    pub set_word16_is :
        (i v : ℕ) (s : State)
        → set_word16 i v s ≡ set_uint8 (2 * i + 1) v (set_uint8 (2 * i) (v / 256) s)
    pub set_raw_some :
        (k : Kind) (host : List ℕ)
        → length host ≡ address_bytes k
        → set_raw_host_address k host ≡ some (record { kind = k; host = host })

  -- memcpy into the buffer, and out of it.
  unfoldable pub copy_in : ℕ → List ℕ → State → State
  copy_in off [] s = s
  copy_in off (b ∷ bs) s = copy_in (off + 1) bs (set_uint8 off b s)

  unfoldable pub copy_out : ℕ → ℕ → State → List ℕ
  copy_out off zero s = []
  copy_out off (suc n) s = get_uint8 off s ∷ copy_out (off + 1) n s

-- An address of a known type, with all its bytes.
pub record Known (a : Address) : Type 0 where
  pub sized : length a.host ≡ address_bytes a.kind
  pub bytes : All (λ b. b < 256) a.host
  pub some_kind : 0 < address_bytes a.kind
