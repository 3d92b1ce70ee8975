-- ===== src/Elastic/AdvTrip.antt =====
-- A whole ElasticAdv, built and read back.
use nrlsmf.Base.{ℕ, ◌+◌, ◌*◌, ◌/◌, ◌%◌, ◌<◌, ◌≤◌, ◌≡◌, ◌≢◌, refl, ap, ◌∙◌, true, false, arith, ltb}
use nrlsmf.Wire.{Address, Packet, Laws}
use nrlsmf.Wire.Copy.{set-other, set-here}
use nrlsmf.Elastic.{grow}
use nrlsmf.Elastic.Adv.{
  offset_ttl, offset_hop_count, offset_metric, offset_adv_addr, set_ttl, set_hop_count, set_metric,
}
use nrlsmf.Elastic.Flow.{words, grow-other, grow-buffer}
use nrlsmf.Elastic.RoundTrip.{Described, past_offset, Described-Agree}

module _ (P : Packet) (laws : Laws P) (dst src : Address) where
  open P use {State, buffer_length, get_length, get_uint8, set_uint8}

  -- The first byte past the flow description.
  abbrev pub end : ℕ
  end = 8 + 8 * words dst.kind

  abbrev pub Is : State → Type 0
  Is s = Described P laws s dst src

  -- One byte is written past the flow description, once the length is set.
  abbrev pub cell : ℕ → ℕ → ℕ → State → State
  cell i v n s = set_uint8 i v (grow P n s)

  module _ (i v n : ℕ) (s : State) (d : Is s) (lo : end ≤ i) (hi : i < buffer_length s) where
    pub cell_buffer : buffer_length (cell i v n s) ≡ buffer_length s
    cell_buffer = laws.buffer_length-set i v _ ∙ grow-buffer P laws n s

    pub cell_other : (j : ℕ) → j ≢ i → j ≢ 1 → get_uint8 j (cell i v n s) ≡ get_uint8 j s
    cell_other j hj h1 =
        set-other P laws i j v (grow P n s) (omega (arith, hi, grow-buffer P laws n s)) hj
        ∙ grow-other P laws n j s (omega (arith, lo, hi)) h1

    pub cell_here : get_uint8 i (cell i v n s) ≡ v % 256
    cell_here = set-here P laws i v (grow P n s) (omega (arith, hi, grow-buffer P laws n s))

    pub cell-Described : Is (cell i v n s)
    cell-Described =
        Described-Agree P laws s (cell i v n s) dst src cell_buffer
          (cell_other 4 (λ e. omega (arith, e, lo)) (λ e. omega (arith, e)))
          (λ j l h. cell_other j (λ e. omega (arith, e, lo, h)) (λ e. omega (arith, e, l))) d

  pub grown-Described : (n : ℕ) (s : State) → 1 < buffer_length s → Is s → Is (grow P n s)
  grown-Described n s h d =
      Described-Agree P laws s (grow P n s) dst src (grow-buffer P laws n s)
        (grow-other P laws n 4 s h (λ e. omega (arith, e)))
        (λ j lo hi. grow-other P laws n j s h (λ e. omega (arith, e, lo))) d

  module _ (s : State) (d : Is s) where
    pub ttl_at : offset_ttl P s ≡ end
    unfolding offset_ttl
    ttl_at = omega (arith, past_offset P laws s dst src d)

    pub hop_at : offset_hop_count P s ≡ end + 1
    unfolding offset_hop_count
    hop_at = ap (λ (x : ℕ). x + 1) ttl_at

    pub metric_at : offset_metric P s ≡ 5 + 4 * words dst.kind
    unfolding offset_metric
    metric_at = omega (arith, hop_at)

    pub adv_at : offset_adv_addr P s ≡ 3 + 2 * words dst.kind
    unfolding offset_adv_addr
    adv_at = omega (arith, metric_at)

  module _ (s : State) (d : Is s) (v : ℕ) (room : end + 4 ≤ buffer_length s) where
    pub ttl_result : set_ttl P v s ≡ (true, cell end v (end + 1) s)
    unfolding set_ttl
    ttl_result =
        let ok : ltb (buffer_length s) (end + 1) ≡ false = ground (arith, room) in
        rw
          (
            ttl_at s d,
            ok,
            ttl_at (grow P (end + 1) s) (grown-Described (end + 1) s (omega (arith, room)) d),
            set_ttl,
          )
          refl

    pub hop_result : set_hop_count P v s ≡ (true, cell (end + 1) v (end + 2) s)
    unfolding set_hop_count
    hop_result =
        let two : end + 1 + 1 ≡ end + 2 = omega arith in
        let ok : ltb (buffer_length s) (end + 2) ≡ false = ground (arith, room) in
        rw
          (
            hop_at s d,
            two,
            ok,
            hop_at (grow P (end + 2) s) (grown-Described (end + 2) s (omega (arith, room)) d),
            set_hop_count,
          )
          refl

    pub metric_result :
        set_metric P v s ≡ (true, set_uint8 (end + 3) v (cell (end + 2) (v / 256) (end + 4) s))
    unfolding set_metric
    metric_result =
        let four : 2 * (5 + 4 * words dst.kind) + 2 ≡ end + 4 = omega arith in
        let ok : ltb (buffer_length s) (end + 4) ≡ false = ground (arith, room) in
        let two : 2 * (5 + 4 * words dst.kind) ≡ end + 2 = omega arith in
        let three : 2 * (5 + 4 * words dst.kind) + 1 ≡ end + 3 = omega arith in
        rw
          (
            metric_at s d,
            four,
            ok,
            metric_at (grow P (end + 4) s) (grown-Described (end + 4) s (omega (arith, room)) d),
            laws.set_word16_is (5 + 4 * words dst.kind) v (grow P (end + 4) s),
            three,
            two,
            set_metric,
          )
          refl
