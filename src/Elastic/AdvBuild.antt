-- ===== src/Elastic/AdvBuild.antt =====
-- The fields of an ElasticAdv behind the flow description, built and read back.
use nrlsmf.Base.{
  ℕ, ◌+◌, ◌*◌, ◌/◌, ◌%◌, ◌<◌, ◌≤◌, ◌≡◌, ◌≢◌, refl, sym, ap, ◌∙◌, Bool, true, false, ◌&&◌, arith,
  ltb, length,
}
use nrlsmf.Wire.{Address, Known, address_bytes, Packet, Laws, copy_in, copy_out}
use nrlsmf.Wire.Copy.{set-other, set-here, copy_in-buffer, copy_in-before, copy_out-copy_in}
use nrlsmf.Elastic.{address_type, get_address_field_words, grow, set_low}
use nrlsmf.Elastic.Adv.{set_ttl, set_hop_count, set_metric, put_adv_addr, set_adv_addr}
use nrlsmf.Elastic.Flow.{
  words, words_lem, bytes_fit, type_known, grow-other, grow-buffer, set_low-other, set_low-buffer,
}
use nrlsmf.Elastic.RoundTrip.{Described, Described-Agree}
use nrlsmf.Elastic.AdvTrip.{
  end, cell, cell_buffer, cell_other, cell_here, cell-Described, adv_at, ttl_result, hop_result,
  metric_result,
}

module _ (P : Packet) (laws : Laws P) where
  open P use {State, buffer_length, get_length, get_uint8, set_uint8}

  -- SetTTL, SetHopCount, SetMetric and SetAdvAddr in order.
  unfoldable pub finish_adv : ℕ → ℕ → ℕ → Address → State → Bool × State
  finish_adv ttl hops metric adv s =
      let a = set_ttl P ttl s in
      let b = set_hop_count P hops a.1 in
      let c = set_metric P metric b.1 in
      let d = set_adv_addr P adv c.1 in (a.0 && (b.0 && (c.0 && d.0)), d.1)

  -- What the four calls write: cells, two bytes and an address.
  module _ (s : State) (dst src adv : Address) (ttl hops metric : ℕ) (known : Known adv)
      (same : adv.kind ≡ dst.kind) (d : Described P laws s dst src)
      (room : 12 + 12 * words dst.kind ≤ buffer_length s) where
    abbrev pub e : ℕ
    e = end P laws dst src

    abbrev s1 : State
    s1 = cell P laws dst src e ttl (e + 1) s

    d1 : Described P laws s1 dst src
    d1 = cell-Described P laws dst src e ttl (e + 1) s d (omega arith) (omega (arith, room))

    b1 : buffer_length s1 ≡ buffer_length s
    b1 = cell_buffer P laws dst src e ttl (e + 1) s d (omega arith) (omega (arith, room))

    abbrev s2 : State
    s2 = cell P laws dst src (e + 1) hops (e + 2) s1

    d2 : Described P laws s2 dst src
    d2 =
        cell-Described P laws dst src (e + 1) hops (e + 2) s1 d1 (omega arith)
          (omega (arith, room, b1))

    b2 : buffer_length s2 ≡ buffer_length s
    b2 =
        cell_buffer P laws dst src (e + 1) hops (e + 2) s1 d1 (omega arith)
          (omega (arith, room, b1))
        ∙ b1

    abbrev s3 : State
    s3 = cell P laws dst src (e + 2) (metric / 256) (e + 4) s2

    d3 : Described P laws s3 dst src
    d3 =
        cell-Described P laws dst src (e + 2) (metric / 256) (e + 4) s2 d2 (omega arith)
          (omega (arith, room, b2))

    b3 : buffer_length s3 ≡ buffer_length s
    b3 =
        cell_buffer P laws dst src (e + 2) (metric / 256) (e + 4) s2 d2 (omega arith)
          (omega (arith, room, b2))
        ∙ b2

    abbrev s4 : State
    s4 = set_uint8 (e + 3) metric s3

    b4 : buffer_length s4 ≡ buffer_length s
    b4 = laws.buffer_length-set (e + 3) metric s3 ∙ b3

    s4_other : (j : ℕ) → j ≢ e + 3 → get_uint8 j s4 ≡ get_uint8 j s3
    s4_other j h = set-other P laws (e + 3) j metric s3 (omega (arith, room, b3)) h

    d4 : Described P laws s4 dst src
    d4 =
        Described-Agree P laws s3 s4 dst src (laws.buffer_length-set (e + 3) metric s3)
          (s4_other 4 (λ k. omega (arith, k))) (λ j lo hi. s4_other j (λ k. omega (arith, k, hi)))
          d3

    abbrev t : ℕ
    t = address_type adv.kind

    abbrev need : ℕ
    need = e + 4 + 4 * words dst.kind

    abbrev s5 : State
    s5 = set_low P 5 t (grow P need s4)

    b5 : buffer_length s5 ≡ buffer_length s
    b5 = set_low-buffer P laws 5 t _ ∙ grow-buffer P laws need s4 ∙ b4

    s5_other : (j : ℕ) → j ≢ 5 → j ≢ 1 → get_uint8 j s5 ≡ get_uint8 j s4
    s5_other j h5 h1 =
        set_low-other P laws 5 t j _ (omega (arith, room, b4, grow-buffer P laws need s4)) h5
        ∙ grow-other P laws need j s4 (omega (arith, room, b4)) h1

    d5 : Described P laws s5 dst src
    d5 =
        Described-Agree P laws s4 s5 dst src (b5 ∙ sym b4)
          (s5_other 4 (λ k. omega (arith, k)) (λ k. omega (arith, k)))
          (λ j lo hi. s5_other j (λ k. omega (arith, k, lo)) (λ k. omega (arith, k, lo))) d4

    abbrev pub s6 : State
    s6 = copy_in P (e + 4) adv.host s5

    host_room : e + 4 + length adv.host ≤ buffer_length s5
    host_room = omega (arith, room, b5, known.sized, bytes_fit adv.kind, ap words same)

    s6_before : (j : ℕ) → j < e + 4 → get_uint8 j s6 ≡ get_uint8 j s5
    s6_before j h = copy_in-before P laws (e + 4) adv.host s5 j host_room h

    pub d6 : Described P laws s6 dst src
    d6 =
        Described-Agree P laws s5 s6 dst src (copy_in-buffer P laws (e + 4) adv.host s5)
          (s6_before 4 (omega arith)) (λ j lo hi. s6_before j (omega (arith, hi))) d5

    adv_result : set_adv_addr P adv s4 ≡ (true, s6)
    unfolding set_adv_addr put_adv_addr
    adv_result =
        let w : get_address_field_words t ≡ words dst.kind = words_lem adv.kind ∙ ap words same in
        let n : 4 * (3 + 2 * words dst.kind) + 4 * words dst.kind ≡ need = omega arith in
        let p : 4 * (3 + 2 * words dst.kind) ≡ e + 4 = omega arith in
        let ok : ltb (buffer_length s4) need ≡ false = ground (arith, room, b4) in
        rw
          (
            type_known adv.kind known.some_kind,
            w,
            adv_at P laws dst src s4 d4,
            n,
            ok,
            adv_at P laws dst src s5 d5,
            p,
            set_adv_addr,
          )
          refl

    pub finished : finish_adv ttl hops metric adv s ≡ (true, s6)
    unfolding finish_adv
    finished =
        simp
          (
            ttl_result P laws dst src s d ttl (omega (arith, room)),
            hop_result P laws dst src s1 d1 hops (omega (arith, room, b1)),
            metric_result P laws dst src s2 d2 metric (omega (arith, room, b2)),
            adv_result,
            finish_adv,
          )
          refl

    -- The four bytes before the address are as the cells left them.
    early : (j : ℕ) → e ≤ j → j < e + 4 → get_uint8 j s6 ≡ get_uint8 j s4
    early j lo h =
        s6_before j h ∙ s5_other j (λ k. omega (arith, k, lo)) (λ k. omega (arith, k, lo))

    from_3 : (j : ℕ) → e ≤ j → j < e + 3 → get_uint8 j s6 ≡ get_uint8 j s3
    from_3 j lo h = early j lo (omega (arith, h)) ∙ s4_other j (λ k. omega (arith, k, h))

    from_2 : (j : ℕ) → e ≤ j → j < e + 2 → get_uint8 j s6 ≡ get_uint8 j s2
    from_2 j lo h =
        from_3 j lo (omega (arith, h))
        ∙ cell_other P laws dst src (e + 2) (metric / 256) (e + 4) s2 d2 (omega arith)
            (omega (arith, room, b2)) j (λ k. omega (arith, k, h)) (λ k. omega (arith, k, lo))

    pub ttl_byte : get_uint8 e s6 ≡ ttl % 256
    ttl_byte =
        from_2 e (omega arith) (omega arith)
        ∙ cell_other P laws dst src (e + 1) hops (e + 2) s1 d1 (omega arith)
            (omega (arith, room, b1)) e (λ k. omega (arith, k)) (λ k. omega (arith, k))
        ∙ cell_here P laws dst src e ttl (e + 1) s d (omega arith) (omega (arith, room))

    pub hop_byte : get_uint8 (e + 1) s6 ≡ hops % 256
    hop_byte =
        from_2 (e + 1) (omega arith) (omega arith)
        ∙ cell_here P laws dst src (e + 1) hops (e + 2) s1 d1 (omega arith)
            (omega (arith, room, b1))

    pub high_byte : get_uint8 (e + 2) s6 ≡ metric / 256 % 256
    high_byte =
        from_3 (e + 2) (omega arith) (omega arith)
        ∙ cell_here P laws dst src (e + 2) (metric / 256) (e + 4) s2 d2 (omega arith)
            (omega (arith, room, b2))

    pub low_byte : get_uint8 (e + 3) s6 ≡ metric % 256
    low_byte =
        early (e + 3) (omega arith) (omega arith)
        ∙ set-here P laws (e + 3) metric s3 (omega (arith, room, b3))

    pub adv_bytes : copy_out P (e + 4) (address_bytes adv.kind) s6 ≡ adv.host
    adv_bytes =
        ap (λ (n : ℕ). copy_out P (e + 4) n s6) (sym known.sized)
        ∙ copy_out-copy_in P laws (e + 4) adv.host s5 host_room known.bytes
