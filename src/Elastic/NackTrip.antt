-- ===== src/Elastic/NackTrip.antt =====
-- A whole ElasticNack, built and read back, and the length that its header gives.
use nrlsmf.Base.{
  ℕ, ◌+◌, ◌*◌, ◌/◌, ◌%◌, ◌<◌, ◌≤◌, ◌≡◌, ◌≢◌, refl, sym, ap, ap₂, ◌∙◌, Bool, true, false, some,
  arith, ltb, ◌==◌, if◌then◌else◌, length,
}
use nrlsmf.Wire.{
  Kind, ipv4, ipv6, eth, other, Address, Known, address_bytes, Packet, Laws, copy_in, copy_out,
}
use nrlsmf.Wire.Nibbles.{low_lem}
use nrlsmf.Wire.Copy.{set-other, set-here, copy_in-buffer, copy_out-copy_in, copy_out-Agree}
use nrlsmf.Elastic.{address_type, set_msg_length, get_msg_length, address_at}
use nrlsmf.Elastic.Nack.{
  nack_address_type, offset_seq_start, offset_seq_stop, set_seq_start, set_seq_stop, get_seq_start,
  get_seq_stop, set_upstream_address, get_upstream_address,
}
use nrlsmf.Elastic.Flow.{
  words, words_lem, bytes_fit, type_small, type_known, address_at-found, set_msg_length-other,
  set_msg_length-buffer,
}

-- OffsetSeqStart of an address type, in 16-bit words.
start_of : ℕ → ℕ
start_of t = if t == 1 then 4 else if t == 2 then 10 else if t == 3 then 6 else 2

start_lem : (k : Kind) → start_of (address_type k) ≡ 2 + 2 * words k
unfolding start_of address_type
start_lem ipv4 = refl
start_lem ipv6 = refl
start_lem eth = refl
start_lem other = refl

module _ (P : Packet) (laws : Laws P) where
  open P use {State, buffer_length, get_length, get_uint8, set_uint8, get_word16, set_word16}

  module _ (s : State) (i v : ℕ) (room : 2 * i + 1 < buffer_length s) (small : v < 65536) where
    first_buffer : buffer_length (set_uint8 (2 * i) (v / 256) s) ≡ buffer_length s
    first_buffer = laws.buffer_length-set (2 * i) (v / 256) s

    word_buffer : buffer_length (set_word16 i v s) ≡ buffer_length s
    word_buffer =
        rw (laws.set_word16_is i v s) (laws.buffer_length-set (2 * i + 1) v _ ∙ first_buffer)

    word_other :
        (j : ℕ) → j ≢ 2 * i → j ≢ 2 * i + 1 → get_uint8 j (set_word16 i v s) ≡ get_uint8 j s
    word_other j h0 h1 = rw (laws.set_word16_is i v s) (
        set-other P laws (2 * i + 1) j v _ (omega (arith, room, first_buffer)) h1
        ∙ set-other P laws (2 * i) j (v / 256) s (omega (arith, room)) h0)

    word_here : get_word16 i (set_word16 i v s) ≡ v
    word_here =
        let a : get_uint8 (2 * i) (set_word16 i v s) ≡ v / 256 % 256 =
          rw (laws.set_word16_is i v s) (
            set-other P laws (2 * i + 1) (2 * i) v _ (omega (arith, room, first_buffer))
              (λ e. omega (arith, e))
            ∙ set-here P laws (2 * i) (v / 256) s (omega (arith, room))) in
        let b : get_uint8 (2 * i + 1) (set_word16 i v s) ≡ v % 256 =
          rw (laws.set_word16_is i v s)
            (set-here P laws (2 * i + 1) v _ (omega (arith, room, first_buffer))) in
        laws.get_word16_is i (set_word16 i v s) ∙ omega (arith, a, b, small)

  type_is : (s : State) → nack_address_type P s ≡ get_uint8 3 s % 16
  unfolding nack_address_type
  type_is s = low_lem (get_uint8 3 s) (laws.get_uint8-byte 3 s)

  start_is : (s : State) → offset_seq_start P s ≡ start_of (get_uint8 3 s % 16)
  unfolding offset_seq_start start_of
  start_is s =
      ap (λ (t : ℕ). if t == 1 then 4 else if t == 2 then 10 else if t == 3 then 6 else 2)
        (type_is s)

  -- The message holds the address `a`.
  record Holds (s : State) (a : Address) : Type 0 where
    typed : get_uint8 3 s % 16 ≡ address_type a.kind
    at : copy_out P 4 (address_bytes a.kind) s ≡ a.host
    room : 8 + 4 * words a.kind ≤ buffer_length s

  start_at : (s : State) (a : Address) → Holds s a → offset_seq_start P s ≡ 2 + 2 * words a.kind
  start_at s a h = start_is s ∙ ap start_of h.typed ∙ start_lem a.kind

  module _ (s : State) (a : Address) (known : Known a)
      (room : 8 + 4 * words a.kind ≤ buffer_length s) where
    abbrev t : ℕ
    t = address_type a.kind

    abbrev copied : State
    copied = copy_in P 4 a.host s

    abbrev typed : State
    typed = set_uint8 3 t copied

    host_room : 4 + length a.host ≤ buffer_length s
    host_room = omega (arith, room, known.sized, bytes_fit a.kind)

    abbrev told : State
    told = set_msg_length P (4 + length a.host + 4) typed

    result : set_upstream_address P a s ≡ (true, told)
    unfolding set_upstream_address
    result =
        let ok : ltb (buffer_length s) (4 + 4 * words a.kind) ≡ false = ground (arith, room) in
        rw (type_known a.kind known.some_kind, words_lem a.kind, ok, set_upstream_address) refl

    typed_buffer : buffer_length typed ≡ buffer_length s
    typed_buffer = laws.buffer_length-set 3 t copied ∙ copy_in-buffer P laws 4 a.host s

    told_other : (j : ℕ) → j ≢ 1 → j ≢ 3 → get_uint8 j told ≡ get_uint8 j copied
    told_other j h1 h3 =
        set_msg_length-other P laws _ j typed (omega (arith, typed_buffer, room)) h1
        ∙ set-other P laws 3 j t copied (omega (arith, copy_in-buffer P laws 4 a.host s, room)) h3

    told-Holds : Holds told a
    told-Holds = record {
      typed =
          ap (λ (x : ℕ). x % 16)
            (set_msg_length-other P laws _ 3 typed (omega (arith, typed_buffer, room))
                (λ e. omega (arith, e))
              ∙ set-here P laws 3 t copied (omega (arith, copy_in-buffer P laws 4 a.host s, room)))
          ∙ omega (arith, type_small a.kind);
      at =
          copy_out-Agree P laws 4 (address_bytes a.kind) told copied
            (λ j lo hi. told_other j (λ e. omega (arith, e, lo)) (λ e. omega (arith, e, lo)))
          ∙ ap (λ (n : ℕ). copy_out P 4 n copied) (sym known.sized)
          ∙ copy_out-copy_in P laws 4 a.host s host_room known.bytes;
      room =
          omega
            (arith, set_msg_length-buffer P laws (4 + length a.host + 4) typed, typed_buffer, room);
    }

    told_length : get_msg_length P told ≡ (8 + address_bytes a.kind) / 4 * 4
    unfolding get_msg_length set_msg_length
    told_length =
        let b : address_bytes a.kind ≤ 16 = omega (arith, bytes_fit a.kind, few) in
        ap (λ (x : ℕ). x * 4)
          (laws.get_uint8-set_length _ 1 _
            ∙ set-here P laws 1 ((4 + length a.host + 4) / 4 % 256) typed
                (omega (arith, typed_buffer, room))
            ∙ omega (arith, known.sized, b))
      where
        four : (k : Kind) → words k ≤ 4
        four ipv4 = omega arith
        four ipv6 = omega arith
        four eth = omega arith
        four other = omega arith

        few : words a.kind ≤ 4
        few = four a.kind

  -- A word past the address keeps the address.
  word-Holds :
      (s : State) (a : Address) (i v : ℕ)
      → Holds s a
      → v < 65536
      → 2 + 2 * words a.kind ≤ i
      → 2 * i + 1 < buffer_length s
      → Holds (set_word16 i v s) a
  word-Holds s a i v h small lo room = record {
    typed =
        ap (λ (x : ℕ). x % 16)
          (word_other s i v room small 3 (λ e. omega (arith, e, lo)) (λ e. omega (arith, e, lo)))
        ∙ h.typed;
    at =
        copy_out-Agree P laws 4 (address_bytes a.kind) (set_word16 i v s) s (λ j l u.
          word_other s i v room small j (λ e. omega (arith, e, lo, u, bytes_fit a.kind))
            (λ e. omega (arith, e, lo, u, bytes_fit a.kind)))
        ∙ h.at;
    room = omega (arith, h.room, word_buffer s i v room small);
  }

  module _ (s : State) (a : Address) (h : Holds s a) where
    abbrev o : ℕ
    o = 2 + 2 * words a.kind

    set_start_is : (v : ℕ) → set_seq_start P v s ≡ set_word16 o v s
    unfolding set_seq_start
    set_start_is v = ap (λ (i : ℕ). set_word16 i v s) (start_at s a h)

    set_stop_is : (v : ℕ) → set_seq_stop P v s ≡ set_word16 (o + 1) v s
    unfolding set_seq_stop offset_seq_stop
    set_stop_is v = ap (λ (i : ℕ). set_word16 (i + 1) v s) (start_at s a h)

    get_start_is : get_seq_start P s ≡ get_word16 o s
    unfolding get_seq_start
    get_start_is = ap (λ (i : ℕ). get_word16 i s) (start_at s a h)

    get_stop_is : get_seq_stop P s ≡ get_word16 (o + 1) s
    unfolding get_seq_stop offset_seq_stop
    get_stop_is = ap (λ (i : ℕ). get_word16 (i + 1) s) (start_at s a h)

    get_address_is : Known a → get_upstream_address P s ≡ some a
    unfolding get_upstream_address
    get_address_is known =
        ap (λ (t : ℕ). address_at P t 4 s) (type_is s ∙ h.typed)
        ∙ address_at-found P laws a 4 s known h.at

  -- SetUpstreamAddress, SetSeqStart and SetSeqStop in order.
  unfoldable pub build_nack : Address → ℕ → ℕ → State → Bool × State
  build_nack a start stop s =
      let r = set_upstream_address P a s in (r.0, set_seq_stop P stop (set_seq_start P start r.1))

  module _ (s : State) (a : Address) (start stop : ℕ) (known : Known a) (hs : start < 65536)
      (ht : stop < 65536) (room : 8 + 4 * words a.kind ≤ buffer_length s) where
    abbrev p : ℕ
    p = 2 + 2 * words a.kind

    abbrev u : State
    u = told s a known room

    abbrev v : State
    v = set_word16 p start u

    abbrev w : State
    w = set_word16 (p + 1) stop v

    u-Holds : Holds u a
    u-Holds = told-Holds s a known room

    u_room : 2 * p + 1 < buffer_length u
    u_room = omega (arith, u-Holds.room)

    v-Holds : Holds v a
    v-Holds = word-Holds u a p start u-Holds hs (omega arith) u_room

    v_room : 2 * (p + 1) + 1 < buffer_length v
    v_room = omega (arith, v-Holds.room)

    w-Holds : Holds w a
    w-Holds = word-Holds v a (p + 1) stop v-Holds ht (omega arith) v_room

    start_kept : get_word16 p w ≡ start
    start_kept =
        laws.get_word16_is p w
        ∙ ap₂ (λ (x y : ℕ). x * 256 + y)
            (word_other v (p + 1) stop v_room ht (2 * p) (λ e. omega (arith, e))
              (λ e. omega (arith, e)))
            (word_other v (p + 1) stop v_room ht (2 * p + 1) (λ e. omega (arith, e))
              (λ e. omega (arith, e)))
        ∙ sym (laws.get_word16_is p v)
        ∙ word_here u p start u_room hs

    built : build_nack a start stop s ≡ (true, w)
    unfolding build_nack
    built =
        simp
          (
            result s a known room,
            set_start_is u a u-Holds start,
            set_stop_is v a v-Holds stop,
            build_nack,
          )
          refl

    length_kept : get_msg_length P w ≡ get_msg_length P u
    unfolding get_msg_length
    length_kept =
        ap (λ (x : ℕ). x * 4)
          (word_other v (p + 1) stop v_room ht 1 (λ e. omega (arith, e)) (λ e. omega (arith, e))
            ∙ word_other u p start u_room hs 1 (λ e. omega (arith, e)) (λ e. omega (arith, e)))

  -- In a buffer with room for the address and two 16-bit words, the upstream address of an
  -- ElasticNack, of a known type, and the first and the last sequence number, each below 65536,
  -- are read as they were set. The packet buffer keeps its laws.
  pub nack_round_trip :
      (s : State) (a : Address) (start stop : ℕ)
      → Known a
      → start < 65536
      → stop < 65536
      → 8 + 4 * words a.kind ≤ buffer_length s
      → let r = build_nack a start stop s in
        (r.0 ≡ true)
        × (get_upstream_address P r.1 ≡ some a)
        × (get_seq_start P r.1 ≡ start)
        × (get_seq_stop P r.1 ≡ stop)
  nack_round_trip s a start stop known hs ht room =
      let h = w-Holds s a start stop known hs ht room in
      simp (built s a start stop known hs ht room) (
        refl,
        get_address_is _ a h known,
        get_start_is _ a h ∙ start_kept s a start stop known hs ht room,
        get_stop_is _ a h
            ∙ word_here (v s a start stop known hs ht room) (p s a start stop known hs ht room + 1)
                stop (v_room s a start stop known hs ht room) ht,
      )

  -- In a buffer with room for the message, and for sequence numbers below 65536, the message
  -- length in the header of an ElasticNack with an upstream address of a known type ends after
  -- the last sequence number for an IPv4 or IPv6 address, and four bytes before that end for an
  -- Ethernet address. The packet buffer keeps its laws.
  pub nack_msg_length :
      (s : State) (a : Address) (start stop : ℕ)
      → Known a
      → start < 65536
      → stop < 65536
      → 8 + 4 * words a.kind ≤ buffer_length s
      → let r = build_nack a start stop s in
        get_msg_length P r.1 + (if address_type a.kind == 3 then 4 else 0)
        ≡ 2 * (offset_seq_stop P r.1 + 1)
  unfolding offset_seq_stop
  nack_msg_length s a start stop known hs ht room =
      let h = w-Holds s a start stop known hs ht room in
      simp (built s a start stop known hs ht room) (
        omega (
          arith,
          length_kept s a start stop known hs ht room,
          told_length s a known room,
          start_at _ a h,
          sizes a.kind known.some_kind,
        ))
    where
      sizes :
          (k : Kind)
          → 0 < address_bytes k
          → (8 + address_bytes k) / 4 * 4 + (if address_type k == 3 then 4 else 0)
            ≡ 2 * (2 + 2 * words k + 2)
      sizes ipv4 z = unfold address_type in refl
      sizes ipv6 z = unfold address_type in refl
      sizes eth z = unfold address_type in refl
      sizes other z = absurd (omega (arith, z))
