-- ===== src/Queue/Tests.antt =====
-- Concrete runs of the queue, over packet lists that are lists.
use nrlsmf.Base.{
  ℕ, ◌≡◌, ◌≢◌, refl, sym, ap, ◌∙◌, true, Option, none, some, List, [], ◌∷◌, ◌++◌, arith, ◌==◌,
  if◌then◌else◌, pos,
}
use nrlsmf.Dpd.Links.Seg.{first, final, Apart}
use nrlsmf.Queue.Store.{PacketList, Laws}
use nrlsmf.Queue.{Queue, at_limit, enqueue_packet, dequeue_packet, preview_packet, empty_to_pool}
use nrlsmf.Queue.Priority.{
  Levels, Queued, offer, serve, split_last, split_last-snoc, enqueue_packet_refines,
}
use nrlsmf.Queue.Service.{put_all, dequeue_packet_refines, empty_to_pool-empty}
use nrlsmf.Queue.Key.{queue_key, find_key, two_addresses-missed}

abbrev insert_at : ℕ → ℕ → List ℕ → List ℕ
insert_at p x [] = p ∷ []
insert_at p x (y ∷ ys) = let rest = insert_at p x ys in if y == x then p ∷ y ∷ ys else y ∷ rest

abbrev remove_one : ℕ → List ℕ → List ℕ
remove_one x [] = []
remove_one x (y ∷ ys) = let rest = remove_one x ys in if y == x then ys else y ∷ rest

abbrev pop_head : List ℕ → Option ℕ × List ℕ
pop_head [] = (none, [])
pop_head (x ∷ xs) = (some x, xs)

abbrev pop_tail : List ℕ → Option ℕ × List ℕ
pop_tail xs = elim (split_last xs) [ none ↦ (none, xs) | some r ↦ (some r.1, r.0) ]

abbrev lists : PacketList
lists = record {
  Packets = List ℕ;
  empty = [];
  items = λ l. l;
  get_head = λ l. first l none;
  get_tail = λ l. final none l;
  prepend = λ p l. p ∷ l;
  append = λ p l. l ++ (p ∷ []);
  insert = insert_at;
  remove = remove_one;
  remove_head = pop_head;
  remove_tail = pop_tail;
  Pool = List ℕ;
  put = λ p pool. p ∷ pool;
}

insert_at-middle :
    (p x : ℕ) (ys zs : List ℕ) → Apart x ys → insert_at p x (ys ++ (x ∷ zs)) ≡ ys ++ (p ∷ (x ∷ zs))
insert_at-middle p x [] zs a = ground arith
insert_at-middle p x (y ∷ ys) zs a = ground (arith, a.0, insert_at-middle p x ys zs a.1)

remove_one-middle : (x : ℕ) (ys zs : List ℕ) → Apart x ys → remove_one x (ys ++ (x ∷ zs)) ≡ ys ++ zs
remove_one-middle x [] zs a = ground arith
remove_one-middle x (y ∷ ys) zs a = ground (arith, a.0, remove_one-middle x ys zs a.1)

lists-Laws : Laws lists
lists-Laws = record {
  items-empty = refl;
  head_is = λ l. refl;
  tail_is = λ l. refl;
  items-prepend = λ p l. refl;
  items-append = λ p l. refl;
  items-insert = λ p x ys zs l a e. ap (insert_at p x) e ∙ insert_at-middle p x ys zs a;
  items-remove = λ x ys zs l a e. ap (remove_one x) e ∙ remove_one-middle x ys zs a;
  remove_head-none = λ l e. ap pop_head e ∙ ap (λ (r : List ℕ). (none, r)) (sym e);
  remove_head-some = λ x xs l e. (ap (λ r. (pop_head r).0) e, ap (λ r. (pop_head r).1) e);
  remove_tail-none = λ l e. ap pop_tail e ∙ ap (λ (r : List ℕ). (none, r)) (sym e);
  remove_tail-some =
      λ x xs l e. (ap (λ r. (pop_tail r).0) e ∙ last x xs, ap (λ r. (pop_tail r).1) e ∙ front x xs);
}
  where
    last : (x : ℕ) (xs : List ℕ) → (pop_tail (xs ++ (x ∷ []))).0 ≡ some x
    last x xs = rw (split_last-snoc xs x, pop_tail) refl

    front : (x : ℕ) (xs : List ℕ) → (pop_tail (xs ++ (x ∷ []))).1 ≡ xs
    front x xs = rw (split_last-snoc xs x, pop_tail) refl

-- A full queue of two packets without priority and one with it.
abbrev queue_3 : Queue lists
queue_3 = record {
  queue_limit = pos 3;
  queue_length = 3;
  packets = 4 ∷ 2 ∷ 1 ∷ [];
  priority_index = some 1;
}

abbrev levels_3 : Levels
levels_3 = record { low = 4 ∷ 2 ∷ []; high = 1 ∷ [] }

queue_3-Queued : Queued lists lists-Laws queue_3 levels_3
queue_3-Queued = record {
  items_are = refl;
  index_is = refl;
  counted = refl;
  distinct = (
    (λ e. omega (arith, e), (λ e. omega (arith, e), tt)),
    ((λ e. omega (arith, e), tt), (tt, tt)),
  );
}

enqueue_packet_refines_example :
    let r = enqueue_packet lists 7 true none queue_3 in
    let o = offer (at_limit (pos 3) 3) 7 true levels_3 in
    (r.0 ≡ o.0) × Queued lists lists-Laws r.1.0 o.1
enqueue_packet_refines_example =
    enqueue_packet_refines lists lists-Laws queue_3 7 none true levels_3 queue_3-Queued
      (λ e. omega (arith, e), (λ e. omega (arith, e), (λ e. omega (arith, e), tt))) (omega arith)

dequeue_packet_refines_example :
    ((dequeue_packet lists queue_3).0 ≡ (serve levels_3).0)
    × Queued lists lists-Laws (dequeue_packet lists queue_3).1 (serve levels_3).1
    × (preview_packet lists queue_3 ≡ (serve levels_3).0)
dequeue_packet_refines_example =
    dequeue_packet_refines lists lists-Laws queue_3 levels_3 queue_3-Queued (omega arith)

empty_to_pool-empty_example :
    let r = empty_to_pool lists [] queue_3 in
    (r.0.packets ≡ []) × (r.0.queue_length ≡ 0) × (r.1 ≡ put_all lists (4 ∷ 2 ∷ 1 ∷ []) [])
empty_to_pool-empty_example = empty_to_pool-empty lists lists-Laws queue_3 []

abbrev here : List ℕ
here = 10 ∷ 0 ∷ 0 ∷ 1 ∷ []

abbrev there : List ℕ
there = 10 ∷ 0 ∷ 0 ∷ 2 ∷ []

here-ne-there : here ≢ there
here-ne-there e = omega (arith, ap get_fourth e)
  where
    get_fourth : List ℕ → ℕ
    get_fourth (a ∷ b ∷ c ∷ d ∷ rest) = d
    get_fourth l = 0

two_addresses-missed_example :
    queue_key 255 (some here) (some there) 17 255 ≢ find_key 255 (some here) (some there) 17 255
two_addresses-missed_example = two_addresses-missed 255 here there 17 255 refl here-ne-there
