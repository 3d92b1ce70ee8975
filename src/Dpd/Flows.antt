-- ===== src/Dpd/Flows.antt =====
-- SmfFlow and SmfFlow::List of include/smfDpd.h and src/common/smfDpd.cpp. The flow objects stand in
-- a store by address: their keys, the links between them, and what a subclass adds, of type `A`.
pub mod Search
pub mod Laws
pub mod Prune
use nrlsmf.Base.{ℕ, ◌+◌, ◌-◌, ◌%◌, Option, none, some, List, word, sub32, take}
use nrlsmf.Dpd.Tree.{KeyTree, bytes_of}
use nrlsmf.Dpd.Links.{Links, update, append_to_list, remove_from_list, move_to_tail, no_links}

module _ (T : KeyTree) where
  open T use {Key, key, Tree, empty, find, insert, remove}

  pub record Flows (A : Type 0) : Type 0 where
    pub count : ℕ
    pub tree : Tree
    pub links : Links
    pub flow_id : ℕ → Key
    pub item : ℕ → A

  -- SmfFlow::Init: the flow at `x` keeps a copy of the id's bytes.
  unfoldable pub flow_init : {A : Type 0} → ℕ → List ℕ → ℕ → Flows A → Flows A
  flow_init x id bits f = record f {
    flow_id = update f.flow_id x (key (take (bytes_of bits) id) bits);
  }

  unfoldable pub set_item : {A : Type 0} → ℕ → A → Flows A → Flows A
  set_item x a f = record f { item = update f.item x a }

  -- SmfFlow::List::Find.
  unfoldable pub find_flow : {A : Type 0} → List ℕ → ℕ → Flows A → Option ℕ
  find_flow id bits f = find (key id bits) f.tree

  -- SmfFlow::List::Append.
  unfoldable pub append : {A : Type 0} → ℕ → Flows A → Flows A
  append x f = record f {
    links = append_to_list x f.links;
    tree = insert (f.flow_id x) x f.tree;
    count = (f.count + 1) % word;
  }

  -- SmfFlow::List::Remove.
  unfoldable pub remove_flow : {A : Type 0} → ℕ → Flows A → Flows A
  remove_flow x f = record f {
    links = remove_from_list x f.links;
    tree = remove (f.flow_id x) x f.tree;
    count = sub32 f.count 1;
  }

  -- SmfFlow::List::MoveToTail.
  unfoldable pub to_tail : {A : Type 0} → ℕ → Flows A → Flows A
  to_tail x f = record f { links = move_to_tail x f.links }

  -- An empty SmfFlow::List over a store.
  unfoldable pub no_flows : {A : Type 0} → (ℕ → Key) → (ℕ → A) → Flows A
  no_flows ids items = record {
    count = 0;
    tree = empty;
    links = no_links;
    flow_id = ids;
    item = items;
  }
