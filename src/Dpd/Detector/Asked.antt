-- ===== src/Dpd/Detector/Asked.antt =====
-- What IsDuplicate of SmfDpdWindow does to the list of flows, whatever it is asked about.
use nrlsmf.Base.{
  ℕ, ◌≡◌, refl, ap, ◌∙◌, inl, inr, Option, none, some, List, ltb, ◌==◌, Bool-cases, Option-cases,
}
use nrlsmf.Dpd.Tree.{KeyTree, TreeLaws}
use nrlsmf.Dpd.Mask.{SlidingMask}
use nrlsmf.Dpd.Links.{update, update_self}
use nrlsmf.Dpd.Flows.{flow_init, set_item, find_flow, append, to_tail}
use nrlsmf.Dpd.Window.{Window, window_init}
use nrlsmf.Dpd.Window
use nrlsmf.Dpd.Detector.{id_mask, WindowFlow, DpdWindow, known_flow, new_flow, dpd_is_duplicate}

module _ (T : KeyTree) (tree : TreeLaws T) (M : SlidingMask) where
  open T use {Key, find, key, insert}

  -- Nothing happens, a flow that is found changes, or a flow is added at a new address.
  pub data Asked (j : Key) (alloc : Option ℕ) (d e : DpdWindow T M) : Type 0 where
    same : e ≡ d → Asked j alloc d e
    changed :
        (x : ℕ) (f : WindowFlow T M)
        → find j d.flow_list.tree ≡ some x
        → e.window_size ≡ d.window_size
        → e.flow_list.tree ≡ d.flow_list.tree
        → e.flow_list.flow_id ≡ d.flow_list.flow_id
        → e.flow_list.item ≡ update d.flow_list.item x f
        → Asked j alloc d e
    added :
        (x : ℕ) (f : WindowFlow T M)
        → find j d.flow_list.tree ≡ none
        → alloc ≡ some x
        → e.window_size ≡ d.window_size
        → e.flow_list.tree ≡ insert j x d.flow_list.tree
        → e.flow_list.flow_id ≡ update d.flow_list.flow_id x j
        → e.flow_list.item ≡ update d.flow_list.item x f
        → Asked j alloc d e

  module _ (now : ℕ) (fid : List ℕ) (fbits : ℕ) (pid : List ℕ) (bits : ℕ) (d : DpdWindow T M) where
    known_flow-Asked :
        (x seq : ℕ) (alloc : Option ℕ)
        → find (key fid fbits) d.flow_list.tree ≡ some x
        → Asked (key fid fbits) alloc d (known_flow T M now x seq bits d).1
    unfolding known_flow set_item to_tail
    known_flow-Asked x seq alloc e =
        let f = d.flow_list.item x in
        elim (Bool-cases (id_mask bits == M.range_mask f.window.bitmask)) [
          | inr h ↦ rw h (same refl)
          | inl h ↦ elim (Bool-cases (Window.is_duplicate M seq f.window).0) [
            | inl t ↦ rw (h, t) (changed x _ e refl refl refl refl)
            | inr t ↦ rw (h, t) (changed x _ e refl refl refl refl)
          ]
        ]

    new_flow-Asked :
        (x seq : ℕ)
        → find (key fid fbits) d.flow_list.tree ≡ none
        → Asked (key fid fbits) (some x) d (new_flow T M now x fid fbits seq bits d).1
    unfolding new_flow set_item append flow_init
    new_flow-Asked x seq e =
        let own = update_self d.flow_list.flow_id _ x ∙ tree.key-take fid fbits in
        elim (Option-cases (window_init M bits d.window_size d.window_past_max)) [
          | inl h ↦ rw (h, new_flow) (same refl)
          | inr (w, h) ↦
              rw (h, new_flow)
                (added x _ e refl refl (ap (λ (i : Key). insert i x d.flow_list.tree) own)
                  (ap (update d.flow_list.flow_id x) (tree.key-take fid fbits)) refl)
        ]

    pub dpd_is_duplicate-Asked :
        (alloc : Option ℕ)
        → Asked (key fid fbits) alloc d (dpd_is_duplicate T M now fid fbits pid bits alloc d).1
    unfolding dpd_is_duplicate find_flow
    dpd_is_duplicate-Asked alloc = elim (Bool-cases (ltb 32 bits)) [
      | inl h ↦ rw h (same refl)
      | inr h ↦ elim (Option-cases (find (key fid fbits) d.flow_list.tree)) [
        | inr (x, e) ↦ rw (h, e, dpd_is_duplicate) (known_flow-Asked x _ alloc e)
        | inl e ↦
            elim alloc
              as (λ (a : Option ℕ).
                Asked (key fid fbits) a d (dpd_is_duplicate T M now fid fbits pid bits a d).1) [
                  | none ↦ rw (h, e, dpd_is_duplicate) (same refl)
                  | some x ↦ rw (h, e, dpd_is_duplicate) (new_flow-Asked x _ e)
                ]
      ]
    ]
