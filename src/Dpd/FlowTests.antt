-- ===== src/Dpd/FlowTests.antt =====
-- Concrete runs of SmfFlow::List, SmfDpdWindow and SmfSequenceMgr.
use nrlsmf.Base.{
  ℕ, ◌+◌, ◌≤◌, ◌%◌, ◌^◌, ◌<◌, ◌≡◌, ◌≢◌, refl, Bool, true, false, Option, none, some, List, [], ◌∷◌,
  arith, if◌then◌else◌, ◌==◌,
}
use nrlsmf.Dpd.Sample.{sample, sample-Laws}
use nrlsmf.Dpd.SampleTree.{sample_tree, sample_tree-Laws}
use nrlsmf.Dpd.Tree.{bytes_of}
use nrlsmf.Dpd.Flows.{Flows, append, remove_flow, no_flows}
use nrlsmf.Dpd.Flows.Laws.{Lists, no_flows-Lists, append-Lists, remove_flow-Lists}
use nrlsmf.Dpd.Flows.Prune.{fresh, prune_list, prune_list-Lists}
use nrlsmf.Dpd.Window.{Window, window_init}
use nrlsmf.Dpd.Window.Ideal.{Ideal, receive}
use nrlsmf.Dpd.Window.Stream.{empty, init_bounds}
use nrlsmf.Dpd.Detector.{DpdWindow, dpd_is_duplicate, id_value, value_from}
use nrlsmf.Dpd.Detector.Verdicts.{Tracks, first_follows, known_follows}
use nrlsmf.Dpd.Sequence.{
  SeqFlow, SequenceMgr, Address, increment_sequence, get_sequence, addr_key, addr_bits,
}
use nrlsmf.Dpd.Sequence.Numbers.{addr_id, increment_consecutive, get_sequence-other}
use nrlsmf.Dpd.Sequence.Order.{Kept, last_update, increment-Kept}

abbrev window_8 : Window sample
window_8 = record {
  bitmask = record { bits = []; last = none; width = 16; mask = 255 };
  window_past_max = 64;
}

made_8 : window_init sample 8 16 64 ≡ some window_8
unfolding window_init
made_8 = refl

-- Flows with their update times: 5 at 100, 6 at 190 and 7 at 200.
abbrev times : ℕ → SeqFlow
times x = record { sequence = x; update_time = if x == 5 then 100 else if x == 6 then 190 else 200 }

abbrev flows_0 : Flows sample_tree SeqFlow
flows_0 = no_flows sample_tree (λ x. (x ∷ [], 8)) times

abbrev flows_2 : Flows sample_tree SeqFlow
flows_2 = append sample_tree 6 (append sample_tree 5 flows_0)

lists_1 : Lists sample_tree sample_tree-Laws (append sample_tree 5 flows_0) (5 ∷ [])
unfolding no_flows
lists_1 =
    append-Lists sample_tree sample_tree-Laws flows_0 5 [] tt refl (omega arith)
      (no_flows-Lists sample_tree sample_tree-Laws (λ x. (x ∷ [], 8)) times)

append-Lists_example : Lists sample_tree sample_tree-Laws flows_2 (5 ∷ 6 ∷ [])
unfolding append no_flows
append-Lists_example =
    append-Lists sample_tree sample_tree-Laws (append sample_tree 5 flows_0) 6 (5 ∷ [])
      (λ e. omega (arith, e), tt) refl (omega arith) lists_1

lists_3 : Lists sample_tree sample_tree-Laws (append sample_tree 7 flows_2) (5 ∷ 6 ∷ 7 ∷ [])
unfolding append no_flows
lists_3 =
    append-Lists sample_tree sample_tree-Laws flows_2 7 (5 ∷ 6 ∷ [])
      (λ e. omega (arith, e), (λ e. omega (arith, e), tt)) refl (omega arith)
      (append-Lists sample_tree sample_tree-Laws (append sample_tree 5 flows_0) 6 (5 ∷ [])
        (λ e. omega (arith, e), tt) refl (omega arith) lists_1)

remove_flow-Lists_example :
    Lists sample_tree sample_tree-Laws
      (remove_flow sample_tree 6 (append sample_tree 7 flows_2))
      (5 ∷ 7 ∷ [])
remove_flow-Lists_example =
    remove_flow-Lists sample_tree sample_tree-Laws (append sample_tree 7 flows_2) 6 (5 ∷ [])
      (7 ∷ []) (omega arith) lists_3

-- At time 210 and with 50 as the greatest age, flow 5 is stale.
prune_list-Lists_example :
    Lists sample_tree sample_tree-Laws
      (prune_list sample_tree last_update 210 50 (append sample_tree 7 flows_2))
      (fresh last_update 210 50 times (5 ∷ 6 ∷ 7 ∷ []))
unfolding append no_flows
prune_list-Lists_example =
    prune_list-Lists sample_tree sample_tree-Laws last_update 210 50 times
      (append sample_tree 7 flows_2) (5 ∷ 6 ∷ 7 ∷ []) refl (omega arith)
      ((omega arith, (omega arith, tt)), ((omega arith, tt), (tt, tt))) lists_3

-- A detector with no flow.
abbrev detector : DpdWindow sample_tree sample
detector = record {
  window_size = 16;
  window_past_max = 64;
  flow_list =
      no_flows sample_tree (λ x. ([], 0)) (λ x. record { window = window_8; update_time = 0 });
}

abbrev source : List ℕ
source = 10 ∷ 0 ∷ 0 ∷ 1 ∷ []

small_id : (b : ℕ) → b < 256 → id_value (b ∷ []) 8 < 2 ^ 8
unfolding id_value value_from bytes_of
small_id b h = omega (arith, h)

abbrev after_first : Bool × DpdWindow sample_tree sample
after_first = dpd_is_duplicate sample_tree sample 30 source 32 (250 ∷ []) 8 (some 9) detector

abbrev bounds : (7 ≤ 31) × (16 ≤ 2 ^ 7)
bounds = init_bounds sample 7 16 64 window_8 made_8

abbrev ideal_250 : Ideal
ideal_250 = (receive 7 16 (id_value (250 ∷ []) 8) empty).1

abbrev TracksSource : DpdWindow sample_tree sample → Ideal → Type 0
TracksSource d v =
    Tracks sample_tree sample_tree-Laws sample sample-Laws d source 32 7 16 (omega arith) bounds.0
      bounds.1 v

first_follows_example : (after_first.0 ≡ false) × TracksSource after_first.1 ideal_250
unfolding no_flows
first_follows_example =
    first_follows sample_tree sample_tree-Laws sample sample-Laws detector source 32 7 30 9
      (250 ∷ []) window_8 (omega arith) (omega arith) (small_id 250 (omega arith)) made_8 refl

first_tracks : TracksSource after_first.1 ideal_250
unfolding no_flows
first_tracks =
    (first_follows sample_tree sample_tree-Laws sample sample-Laws detector source 32 7 30 9
      (250 ∷ []) window_8 (omega arith) (omega arith) (small_id 250 (omega arith)) made_8 refl).1

known_follows_example :
    let r = dpd_is_duplicate sample_tree sample 31 source 32 (250 ∷ []) 8 none after_first.1 in
    let i = receive 7 16 (id_value (250 ∷ []) 8) ideal_250 in (r.0 ≡ i.0) × TracksSource r.1 i.1
known_follows_example =
    known_follows sample_tree sample_tree-Laws sample sample-Laws after_first.1 source 32 7 16
      (omega arith) bounds.0 bounds.1 31 (250 ∷ []) none ideal_250 (omega arith)
      (small_id 250 (omega arith)) first_tracks

-- A sequence manager of 8-bit numbers that has flow 5 for the destination 10.0.0.1.
abbrev host : Option Address
host = some (10 ∷ 0 ∷ 0 ∷ 1 ∷ [])

abbrev peer : Option Address
peer = some (10 ∷ 0 ∷ 0 ∷ 2 ∷ [])

abbrev manager_0 : SequenceMgr sample_tree
manager_0 = record { seq_mask = 255; seq_global = 0; flow_list = flows_0 }

increment_consecutive_example :
    let (s, m) = increment_sequence sample_tree 10 host none (some 5) 255 manager_0 in
    (increment_sequence sample_tree 11 host none (some 6) 9 m).0 ≡ (s + 1) % 2 ^ 8
increment_consecutive_example =
    increment_consecutive sample_tree sample_tree-Laws manager_0 8 10 11 255 9 5 6 host none
      (omega arith) refl

differ :
    addr_id sample_tree sample_tree-Laws host none ≢ addr_id sample_tree sample_tree-Laws peer none
unfolding addr_key addr_bits bytes_of
differ e =
    let t : sample_tree.key_eq (addr_id sample_tree sample_tree-Laws host none)
          (addr_id sample_tree sample_tree-Laws peer none)
        ≡ true =
      (sample_tree-Laws.key_eq_iff _ _).1 e in
    cc

get_sequence-other_example :
    get_sequence sample_tree host none
      (increment_sequence sample_tree 10 peer none (some 5) 255 manager_0).1
    ≡ get_sequence sample_tree host none manager_0
get_sequence-other_example =
    get_sequence-other sample_tree sample_tree-Laws manager_0 []
      (no_flows-Lists sample_tree sample_tree-Laws (λ x. (x ∷ [], 8)) times) 10 255 5 peer none host
      none tt differ

increment-Kept_example :
    (ys : List ℕ) × Kept sample_tree sample_tree-Laws 10
      (increment_sequence sample_tree 10 peer none (some 5) 255 manager_0).1
      ys
increment-Kept_example =
    increment-Kept sample_tree sample_tree-Laws manager_0 10 255 5 [] peer none (omega arith)
      (omega arith) tt
      (record {
        lists = no_flows-Lists sample_tree sample_tree-Laws (λ x. (x ∷ [], 8)) times;
        aged = tt;
      })
