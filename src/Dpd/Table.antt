-- ===== src/Dpd/Table.antt =====
-- SmfDpdTable of include/smfDpd.h and src/common/smfDpd.cpp: duplicate detection by the packet ids
-- that each flow has received, one flow's part of it: PacketIdEntry, PacketIdTable and Flow.
pub mod Seen
pub mod Stream
pub mod Room
pub mod Limit
use nrlsmf.Base.{
  ℕ, zero, suc, ◌+◌, ◌*◌, ◌/◌, ◌%◌, Bool, true, false, ◌&&◌, Option, none, some, List, [], ◌++◌,
  ltb, leb, ◌==◌, if◌then◌else◌, length, take, drop, sub32, word,
}
use nrlsmf.Dpd.Links.{update}
use nrlsmf.Dpd.Tree.{KeyTree}

-- PacketIdEntry: `pkt_id` without the byte in front that holds its length.
pub record Entry : Type 0 where
  pub pkt_id : Option (List ℕ)
  pub arrival_time : ℕ
  pub next : Option ℕ

-- ProtoTree::ItemPool, which the repository does not hold: Get and Put.
pub record ItemPool : Type 1 where
  pub Pool : Type 0
  pub new_pool : Pool
  pub get : Pool → Option ℕ × Pool
  pub put : ℕ → Pool → Pool

-- The bytes of an entry's id; none without a buffer.
abbrev pub id_bytes : Entry → List ℕ
id_bytes e = elim e.pkt_id [ none ↦ [] | some id ↦ id ]

-- SetPktId. A buffer that is there keeps its length byte, and bytes past the new ones. `room` is
-- whether a new buffer can be had.
unfoldable pub set_pkt_id : Bool → List ℕ → Entry → Bool × Entry
set_pkt_id room id e = elim e.pkt_id [
  | none ↦ (if room then (true, record e { pkt_id = some id }) else (false, e))
  | some old ↦ (true, record e { pkt_id = some (id ++ drop (length id) old) })
]

module _ (T : KeyTree) (I : ItemPool) where
  open T use {Key, key, Tree, empty, find, insert, remove}
  open I use {Pool, new_pool, get, put}

  -- A flow with its PacketIdTable, over the entries and the pools that all flows share.
  pub record Ids : Type 0 where
    pub entries : ℕ → Entry
    pub pools : ℕ → Option Pool
    pub id_tree : Tree
    pub head : Option ℕ
    pub tail : Option ℕ
    pub pkt_count : ℕ
    pub pkt_count_max : ℕ

  unfoldable pub entry_key : Entry → Key
  entry_key e = key (id_bytes e) (length (id_bytes e) * 8)

  unfoldable pub set_entry_next : ℕ → Option ℕ → Ids → Ids
  set_entry_next x n s = record s {
    entries = update s.entries x (record (s.entries x) { next = n });
  }

  unfoldable pub set_arrival : ℕ → ℕ → Ids → Ids
  set_arrival x now s = record s {
    entries = update s.entries x (record (s.entries x) { arrival_time = now; next = none });
  }

  unfoldable pub link_last : ℕ → Ids → Ids
  link_last x s = elim s.tail [
    | some t ↦ record (set_entry_next t (some x) s) { tail = some x }
    | none ↦ record s { head = some x; tail = some x }
  ]

  -- PacketIdTable::Append.
  unfoldable pub append_entry : ℕ → ℕ → Ids → Ids
  append_entry x now s =
      let linked = link_last x (set_arrival x now s) in
      record linked { id_tree = insert (entry_key (linked.entries x)) x linked.id_tree }

  -- PacketIdTable::RemoveHead.
  unfoldable pub remove_head : Ids → Option ℕ × Ids
  remove_head s = elim s.head [
    | none ↦ (none, s)
    | some x ↦ (
      some x,
      record s {
        head = (s.entries x).next;
        id_tree = remove (entry_key (s.entries x)) x s.id_tree;
      },
    )
  ]

  -- An old entry goes to the pool of its length, which is made if need be. `room` is whether a pool
  -- can be had; without it the entry is deleted.
  unfoldable pub give_back : Bool → ℕ → Ids → Ids
  give_back room x s =
      let n = length (id_bytes (s.entries x)) in
      elim (s.pools n) [
        | some p ↦ record s { pools = update s.pools n (some (put x p)) }
        | none ↦ (if room then record s { pools = update s.pools n (some (put x new_pool)) } else s)
      ]

  -- The loop that makes room: the oldest entries go until the count is below the limit, and the
  -- first of the length `len` is kept for use. `none` is the dereference of a null head.
  unfoldable pub make_room : ℕ → Bool → ℕ → Option ℕ → Ids → Option (Option ℕ × Ids)
  make_room zero room len kept s = some (kept, s)
  make_room (suc fuel) room len kept s =
      let r = remove_head s in
      let counted = record r.1 { pkt_count = sub32 s.pkt_count 1 } in
      let gone : Option (Option ℕ × Ids) = elim r.0 [
        | none ↦ none
        | some x ↦ make_room fuel room len kept (give_back room x counted)
      ] in
      let keep : Option (Option ℕ × Ids) = elim r.0 [
        | none ↦ none
        | some x ↦ make_room fuel room len (some x) counted
      ] in
      let first : Bool = elim r.0 [
        | none ↦ false
        | some x ↦ length (id_bytes (s.entries x)) == len
      ] in
      if leb s.pkt_count_max s.pkt_count
      then (elim kept [ none ↦ if first then keep else gone | some y ↦ gone ])
      else some (kept, s)

  -- The entry to use when there is room: one of the pool, if it has one.
  unfoldable pub from_pool : ℕ → Ids → Option ℕ × Ids
  from_pool len s = elim (s.pools len) [
    | none ↦ (none, s)
    | some p ↦ let r = get p in (r.0, record s { pools = update s.pools len (some r.1) })
  ]

  -- The id is written to the entry at `x`, and the entry is appended.
  unfoldable pub store_id : ℕ → ℕ → Entry → Ids → Ids
  store_id x now e s =
      let a = append_entry x now (record s { entries = update s.entries x e }) in
      record a { pkt_count = (a.pkt_count + 1) % word }

  -- The end of IsDuplicate: `alloc` is what `new PacketIdEntry` returns.
  unfoldable pub enter : ℕ → List ℕ → Option ℕ → Bool → Option ℕ → Ids → Bool × Ids
  enter now id alloc room kept s = elim kept [
    | some x ↦ (false, store_id x now (set_pkt_id room id (s.entries x)).1 s)
    | none ↦ elim alloc [
      | none ↦ (true, s)
      | some x ↦
          let r = set_pkt_id room id (record { pkt_id = none; arrival_time = 0; next = none }) in
          if r.0 then (false, store_id x now r.1 s) else (true, s)
    ]
  ]

  -- Flow::IsDuplicate on an id of whole bytes, fewer than 256; `none` is a null dereference.
  unfoldable pub table_is_duplicate : ℕ → List ℕ → Option ℕ → Bool → Ids → Option (Bool × Ids)
  table_is_duplicate now id alloc room s =
      let len = length id in
      elim (find (key id (len * 8)) s.id_tree) [
        | some x ↦ some (true, s)
        | none ↦
            if ltb 0 s.pkt_count_max && leb s.pkt_count_max s.pkt_count
            then (elim (make_room (suc s.pkt_count) room len none s) [
              | none ↦ none
              | some r ↦ some (enter now id alloc room r.0 r.1)
            ])
            else (let r = from_pool len s in some (enter now id alloc room r.0 r.1))
      ]

  -- A flow that has received nothing.
  unfoldable pub no_ids : ℕ → (ℕ → Entry) → (ℕ → Option Pool) → Ids
  no_ids limit entries pools = record {
    entries = entries;
    pools = pools;
    id_tree = empty;
    head = none;
    tail = none;
    pkt_count = 0;
    pkt_count_max = limit;
  }
