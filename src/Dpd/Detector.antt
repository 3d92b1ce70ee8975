-- ===== src/Dpd/Detector.antt =====
-- SmfDpdWindow of include/smfDpd.h and src/common/smfDpd.cpp: duplicate detection by sequence
-- numbers, with a sliding window for each flow.
pub mod Verdicts
pub mod Asked
pub mod Others
pub mod Memory
pub mod Recall
use nrlsmf.Base.{
  ℕ, ◌+◌, ◌-◌, ◌*◌, ◌/◌, ◌%◌, ◌^◌, Bool, true, false, not, Option, none, some, List, [], ◌∷◌, ltb,
  ◌==◌, if◌then◌else◌, take, word,
}
use nrlsmf.Dpd.Tree.{KeyTree, bytes_of}
use nrlsmf.Dpd.Mask.{SlidingMask}
use nrlsmf.Dpd.Flows.{Flows, flow_init, set_item, find_flow, append, to_tail, no_flows}
use nrlsmf.Dpd.Flows.Prune.{prune_list}
use nrlsmf.Dpd.Window.{Window, window_init}
use nrlsmf.Dpd.Window

-- The bytes of a packet id, first one highest: the copy to the end of a word, and `ntohl`.
unfoldable pub value_from : ℕ → List ℕ → ℕ
value_from acc [] = acc
value_from acc (b ∷ bs) = value_from (acc * 256 + b) bs

unfoldable pub id_value : List ℕ → ℕ → ℕ
unfolding value_from
id_value id bits = value_from 0 (take (bytes_of bits) id)

-- `0xffffffff >> (32 - pktIdSize)`.
unfoldable pub id_mask : ℕ → ℕ
id_mask bits = (word - 1) / 2 ^ (32 - bits)

module _ (T : KeyTree) (M : SlidingMask) where
  pub record WindowFlow : Type 0 where
    pub window : Window M
    pub update_time : ℕ

  pub record DpdWindow : Type 0 where
    pub window_size : ℕ
    pub window_past_max : ℕ
    pub flow_list : Flows T WindowFlow

  abbrev pub with_list : DpdWindow → Flows T WindowFlow → DpdWindow
  with_list d f = record d { flow_list = f }

  -- Init: the flow list is emptied, and the sizes are kept if they fit.
  unfoldable pub dpd_init : ℕ → ℕ → DpdWindow → Bool × DpdWindow
  dpd_init size past d =
      let cleared = with_list d (no_flows T d.flow_list.flow_id d.flow_list.item) in
      if ltb past size
      then (false, cleared)
      else (true, record cleared { window_size = size; window_past_max = past })

  -- A number for the flow at `x`, which is there.
  unfoldable pub known_flow : ℕ → ℕ → ℕ → ℕ → DpdWindow → Bool × DpdWindow
  known_flow now x seq bits d =
      let f = d.flow_list.item x in
      let r = Window.is_duplicate M seq f.window in
      if not (id_mask bits == M.range_mask f.window.bitmask)
      then (true, d)
      else if r.0
      then (true, with_list d (set_item T x (record f { window = r.1 }) d.flow_list))
      else (
        false,
        with_list d
            (to_tail T x (set_item T x (record f { window = r.1; update_time = now }) d.flow_list)),
      )

  -- The first number of a flow, whose object is at `x`.
  unfoldable pub new_flow : ℕ → ℕ → List ℕ → ℕ → ℕ → ℕ → DpdWindow → Bool × DpdWindow
  new_flow now x id id_bits seq bits d = elim (window_init M bits d.window_size d.window_past_max) [
    | none ↦ (true, d)
    | some w ↦ (
      false,
      with_list d (
          set_item T x (record { window = (Window.is_duplicate M seq w).1; update_time = now })
            (append T x (flow_init T x id id_bits d.flow_list))),
    )
  ]

  -- IsDuplicate. `alloc` is what `new Flow` returns.
  unfoldable pub dpd_is_duplicate :
      ℕ → List ℕ → ℕ → List ℕ → ℕ → Option ℕ → DpdWindow → Bool × DpdWindow
  dpd_is_duplicate now flow_id flow_bits pkt_id bits alloc d =
      if ltb 32 bits then (true, d) else elim (find_flow T flow_id flow_bits d.flow_list) [
        | some x ↦ known_flow now x (id_value pkt_id bits) bits d
        | none ↦ elim alloc [
          | none ↦ (true, d)
          | some x ↦ new_flow now x flow_id flow_bits (id_value pkt_id bits) bits d
        ]
      ]

  -- Prune.
  unfoldable pub dpd_prune : ℕ → ℕ → DpdWindow → DpdWindow
  dpd_prune now age_max d = with_list d (prune_list T (λ f. f.update_time) now age_max d.flow_list)

  -- GetFlowCount.
  unfoldable pub flow_count : DpdWindow → ℕ
  flow_count d = d.flow_list.count
