-- ===== src/Dpd/TableTests.antt =====
-- Concrete runs of SmfDpdTable.
use nrlsmf.Base.{◌≤◌, arith, Bool, Option, ℕ, ◌≡◌, refl, true, false, none, some, List, [], ◌∷◌}
use nrlsmf.Dpd.SampleTree.{sample_tree, sample_tree-Laws}
use nrlsmf.Dpd.Tree.{bytes_of}
use nrlsmf.Dpd.Table.{
  Entry, ItemPool, Ids, set_pkt_id, set_entry_next, set_arrival, link_last, append_entry,
  remove_head, entry_key, give_back, make_room, from_pool, store_id, enter, table_is_duplicate,
  no_ids,
}
use nrlsmf.Dpd.Table.Limit.{table_is_duplicate-limit}
use nrlsmf.Dpd.Table.Stream.{Packet, table_verdicts, table_verdicts-repeats}

abbrev sample_pool : ItemPool
sample_pool = record {
  Pool = List ℕ;
  new_pool = [];
  get = λ p. elim p [ [] ↦ (none, []) | x ∷ xs ↦ (some x, xs) ];
  put = λ x p. x ∷ p;
}

abbrev fresh_entry : ℕ → Entry
fresh_entry x = record { pkt_id = none; arrival_time = 0; next = none }

abbrev packets : List Packet
packets =
    record { now = 1; id = 7 ∷ 9 ∷ []; made = 1 }
    ∷ record { now = 2; id = 7 ∷ []; made = 2 }
    ∷ record { now = 3; id = 7 ∷ 9 ∷ []; made = 3 }
    ∷ record { now = 4; id = 8 ∷ []; made = 4 }
    ∷ record { now = 5; id = 7 ∷ []; made = 5 }
    ∷ []

table_verdicts-repeats_example :
    table_verdicts sample_tree sample_pool packets
      (no_ids sample_tree sample_pool 0 fresh_entry (λ n. none))
    ≡ some (false ∷ false ∷ true ∷ false ∷ true ∷ [])
unfolding bytes_of
table_verdicts-repeats_example =
    table_verdicts-repeats sample_tree sample_pool sample_tree-Laws packets fresh_entry

-- With a limit of one id the second id empties the list, and the third finds no head.
one_id :
    table_verdicts sample_tree sample_pool packets
      (no_ids sample_tree sample_pool 1 fresh_entry (λ n. none))
    ≡ none
unfolding set_pkt_id set_entry_next set_arrival link_last append_entry remove_head entry_key
    give_back make_room from_pool store_id enter table_is_duplicate no_ids table_verdicts bytes_of
one_id = refl

-- With a limit of two ids.
two_ids :
    table_verdicts sample_tree sample_pool packets
      (no_ids sample_tree sample_pool 2 fresh_entry (λ n. none))
    ≡ some (false ∷ false ∷ true ∷ false ∷ true ∷ [])
unfolding set_pkt_id set_entry_next set_arrival link_last append_entry remove_head entry_key
    give_back make_room from_pool store_id enter table_is_duplicate no_ids table_verdicts bytes_of
two_ids = refl

abbrev entry_of : List ℕ → Entry
entry_of id = record { pkt_id = some id; arrival_time = 0; next = none }

-- A flow with a limit of two ids that holds two.
abbrev two_held : Ids sample_tree sample_pool
two_held = store_id sample_tree sample_pool 2 2 (entry_of (8 ∷ [])) (
    store_id sample_tree sample_pool 1 1 (entry_of (7 ∷ 9 ∷ []))
      (no_ids sample_tree sample_pool 2 fresh_entry (λ n. none)))

abbrev third : Option (Bool × Ids sample_tree sample_pool)
third = table_is_duplicate sample_tree sample_pool 3 (5 ∷ []) (some 3) true two_held

abbrev after_third : Bool × Ids sample_tree sample_pool
after_third = elim third [ none ↦ (true, two_held) | some r ↦ r ]

third_answered : third ≡ some after_third
unfolding set_pkt_id set_entry_next set_arrival link_last append_entry remove_head entry_key
    give_back make_room from_pool store_id enter table_is_duplicate no_ids bytes_of
third_answered = refl

full : (two_held.pkt_count ≡ 2) × (two_held.pkt_count_max ≡ 2)
unfolding set_entry_next set_arrival link_last append_entry entry_key store_id no_ids bytes_of
full = (refl, refl)

table_is_duplicate-limit_example :
    (after_third.1.pkt_count ≤ two_held.pkt_count_max)
    × (after_third.1.pkt_count_max ≡ two_held.pkt_count_max)
table_is_duplicate-limit_example =
    table_is_duplicate-limit sample_tree sample_pool 3 (5 ∷ []) (some 3) true two_held after_third
      (omega (arith, full.1)) (omega (arith, full.1)) (omega (arith, full.0, full.1)) third_answered
