-- ===== src/Dpd/Table/Stream.antt =====
-- The verdicts of a flow without a limit on a sequence of packets.
use nrlsmf.Base.{ℕ, ◌≡◌, refl, Bool, true, Option, none, some, List, [], ◌∷◌}
use nrlsmf.Dpd.Tree.{KeyTree, TreeLaws}
use nrlsmf.Dpd.Table.{Entry, ItemPool, Ids, table_is_duplicate, no_ids}
use nrlsmf.Dpd.Table.Seen.{id_key, has_key, Knows, no_ids-Knows, answer}

-- A packet: the time, the id, and the entry that `new` gives if one is wanted.
pub record Packet : Type 0 where
  pub now : ℕ
  pub id : List ℕ
  pub made : ℕ

module _ (T : KeyTree) (I : ItemPool) where
  unfoldable pub table_verdicts : List Packet → Ids T I → Option (List Bool)
  table_verdicts [] s = some []
  table_verdicts (p ∷ ps) s = elim (table_is_duplicate T I p.now p.id (some p.made) true s) [
    | none ↦ none
    | some r ↦ elim (table_verdicts ps r.1) [ none ↦ none | some vs ↦ some (r.0 ∷ vs) ]
  ]

  module _ (laws : TreeLaws T) where
    -- For each packet, whether its id is among those before it.
    abbrev pub repeats : List (List ℕ) → List Packet → List Bool
    repeats seen [] = []
    repeats seen (p ∷ ps) = has_key T laws I (id_key T laws I p.id) seen ∷ repeats (p.id ∷ seen) ps

    verdicts_from :
        (ps : List Packet) (s : Ids T I) (ids : List (List ℕ))
        → Knows T laws I s ids
        → table_verdicts ps s ≡ some (repeats ids ps)
    unfolding table_verdicts
    verdicts_from [] s ids k = refl
    verdicts_from (p ∷ ps) s ids k =
        let (r, (returned, right, knows)) = answer T laws I s ids k p.now p.id p.made in
        rw (returned, verdicts_from ps r.1 (p.id ∷ ids) knows, right, table_verdicts) refl

    -- On any sequence of packets, a flow of SmfDpdTable without a limit, with no pools and with
    -- memory for every entry, returns for each packet whether its id is among the ids of the
    -- packets before it, and never meets a null pointer.
    pub table_verdicts-repeats :
        (ps : List Packet) (entries : ℕ → Entry)
        → table_verdicts ps (no_ids T I 0 entries (λ n. none)) ≡ some (repeats [] ps)
    table_verdicts-repeats ps entries =
        verdicts_from ps (no_ids T I 0 entries (λ n. none)) [] (no_ids-Knows T laws I entries)
