-- ===== src/Dpd/Sequence.antt =====
-- SmfSequenceMgr of include/smfDpd.h and src/common/smfDpd.cpp: the sequence number that a host
-- gives to the next packet of each destination, or of each pair of source and destination.
pub mod Numbers
pub mod Order
use nrlsmf.Base.{
  ℕ, ◌+◌, ◌-◌, ◌*◌, ◌/◌, ◌%◌, ◌^◌, Bool, Option, none, some, List, [], ◌++◌, ltb, if◌then◌else◌,
  length, bit_and, word,
}
use nrlsmf.Dpd.Tree.{KeyTree}
use nrlsmf.Dpd.Flows.{Flows, flow_init, set_item, find_flow, append, to_tail, no_flows}
use nrlsmf.Dpd.Flows.Prune.{prune_list}

-- SmfSequenceMgr::Flow, beside its id.
pub record SeqFlow : Type 0 where
  pub sequence : ℕ
  pub update_time : ℕ

-- A ProtoAddress as its raw bytes; `none` for a null pointer.
abbrev pub Address : Type 0
Address = List ℕ

abbrev pub raw : Option Address → List ℕ
raw none = []
raw (some a) = a

-- The key of IncrementSequence and GetSequence, and its length in bits: the source address, if
-- there is one, before the destination.
unfoldable pub addr_key : Option Address → Option Address → List ℕ
addr_key dst src = raw src ++ raw dst

unfoldable pub addr_bits : Option Address → Option Address → ℕ
addr_bits dst src = (length (raw src) + length (raw dst)) * 8

-- Flow::IncrementSequence: the present number, and the flow after it.
unfoldable pub increment : ℕ → SeqFlow → ℕ × SeqFlow
increment mask f = (bit_and f.sequence mask, record f { sequence = (f.sequence + 1) % word })

module _ (T : KeyTree) where
  pub record SequenceMgr : Type 0 where
    pub seq_mask : ℕ
    pub seq_global : ℕ
    pub flow_list : Flows T SeqFlow

  -- Init: the mask of `n` bits.
  unfoldable pub seq_init : ℕ → SequenceMgr → SequenceMgr
  seq_init n m = record m { seq_mask = if ltb n 32 then (word - 1) / 2 ^ (32 - n) else word - 1 }

  -- The last step of IncrementSequence, on the flow at `x`.
  unfoldable pub take_number : ℕ → SequenceMgr → ℕ × SequenceMgr
  unfolding increment
  take_number x m =
      let r = increment m.seq_mask (m.flow_list.item x) in
      (r.0, record m { flow_list = set_item T x r.1 m.flow_list })

  -- Touching a flow that is there, and adding one at the address that `new` gave.
  unfoldable pub touch : ℕ → ℕ → SequenceMgr → SequenceMgr
  touch time x m = record m {
    flow_list =
        to_tail T x (set_item T x (record (m.flow_list.item x) { update_time = time }) m.flow_list);
  }

  unfoldable pub add : ℕ → ℕ → ℕ → List ℕ → ℕ → SequenceMgr → SequenceMgr
  add time rand x id bits m = record m {
    flow_list = append T x (
        set_item T x (record { sequence = bit_and rand m.seq_mask; update_time = time })
          (flow_init T x id bits m.flow_list));
  }

  -- IncrementSequence. `new_flow` is what `new Flow` returns and `rand` what `rand()` does.
  unfoldable pub increment_sequence :
      ℕ → Option Address → Option Address → Option ℕ → ℕ → SequenceMgr → ℕ × SequenceMgr
  increment_sequence time dst src new_flow rand m =
      elim (find_flow T (addr_key dst src) (addr_bits dst src) m.flow_list) [
        | some x ↦ take_number x (touch time x m)
        | none ↦ elim new_flow [
          | none ↦
              (bit_and m.seq_global m.seq_mask, record m { seq_global = (m.seq_global + 1) % word })
          | some x ↦ take_number x (add time rand x (addr_key dst src) (addr_bits dst src) m)
        ]
      ]

  -- GetSequence.
  unfoldable pub get_sequence : Option Address → Option Address → SequenceMgr → ℕ
  get_sequence dst src m = elim (find_flow T (addr_key dst src) (addr_bits dst src) m.flow_list) [
    | some x ↦ (m.flow_list.item x).sequence
    | none ↦ 0
  ]

  -- Prune.
  unfoldable pub seq_prune : ℕ → ℕ → SequenceMgr → SequenceMgr
  seq_prune now age_max m = record m {
    flow_list = prune_list T (λ f. f.update_time) now age_max m.flow_list;
  }
