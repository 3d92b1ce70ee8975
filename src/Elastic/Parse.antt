-- ===== src/Elastic/Parse.antt =====
-- What the parsers of src/common/elasticMsg.cpp accept.
use nrlsmf.Base.{
  ℕ, ◌*◌, ◌≤◌, ◌≡◌, refl, sym, ◌∙◌, ap, inl, inr, true, false, ◌&&◌, Option, arith, ltb, leb,
  Bool-cases,
}
use nrlsmf.Wire.{Packet, Laws}
use nrlsmf.Elastic.Adv.{adv_init_from_buffer}
use nrlsmf.Elastic.{attached, get_msg_length, init_from_buffer, flow_init_from_buffer}

module _ (P : Packet) (laws : Laws P) (b : Option P.Buffer) (s : P.State) where
  open P use {State, buffer_length, get_length, set_length}

  abbrev start : State
  start = attached P b s

  -- A message that is accepted has the length of its header, and lies in the buffer.
  abbrev pub Inside : State → Type 0
  Inside t = (get_length t ≡ get_msg_length P t) × (get_length t ≤ buffer_length t)

  inside :
      get_msg_length P start ≤ buffer_length start
      → Inside (set_length (get_msg_length P start) start)
  unfolding get_msg_length
  inside h =
      let e = laws.get_length-set_length (get_msg_length P start) start h in
      let f = laws.get_uint8-set_length (get_msg_length P start) 1 start in
      (
        e ∙ ap (λ (x : ℕ). x * 4) (sym f),
        omega (arith, e, h, laws.buffer_length-set_length (get_msg_length P start) start),
      )

  -- What ElasticMsg::InitFromBuffer accepts has the length that its header gives, and lies in
  -- the buffer, if the packet buffer keeps its laws.
  pub init_from_buffer-Inside :
      (init_from_buffer P b s).0 ≡ true → Inside (init_from_buffer P b s).1
  unfolding init_from_buffer
  init_from_buffer-Inside e = elim (Bool-cases (ltb 1 (buffer_length start))) [
    | inl t ↦ elim (Bool-cases (ltb (buffer_length start) (get_msg_length P start))) [
      | inl u ↦
          let no : (init_from_buffer P b s).0 ≡ false = rw (t, u, init_from_buffer) refl in
          absurd (ground (arith, e, no))
      | inr u ↦ rw (t, u, init_from_buffer) (inside (ground (arith, u)))
    ]
    | inr t ↦
        let no : (init_from_buffer P b s).0 ≡ false = rw (t, init_from_buffer) refl in
        absurd (ground (arith, e, no))
  ]

  flow-Inside : (flow_init_from_buffer P b s).0 ≡ true → Inside (flow_init_from_buffer P b s).1
  unfolding flow_init_from_buffer
  flow-Inside e =
      elim (Bool-cases
        (leb 7 (buffer_length start) && leb (get_msg_length P start) (buffer_length start))) [
          | inl t ↦ rw (t, flow_init_from_buffer) (inside (ground (arith, t)))
          | inr t ↦
              let no : (flow_init_from_buffer P b s).0 ≡ false =
                rw (t, flow_init_from_buffer) refl in
              absurd (ground (arith, e, no))
        ]

  -- What InitFromBuffer of ElasticAck accepts, that of ElasticAdv accepts too, and to both the
  -- message has the length that its header gives, and lies in the buffer, if the packet buffer
  -- keeps its laws.
  pub flow_init_from_buffer-Inside :
      (flow_init_from_buffer P b s).0 ≡ true
      → ((adv_init_from_buffer P b s).0 ≡ true)
        × Inside (flow_init_from_buffer P b s).1
        × Inside (adv_init_from_buffer P b s).1
  unfolding adv_init_from_buffer
  flow_init_from_buffer-Inside e = (e, flow-Inside e, flow-Inside e)
