-- ===== src/Utils/Vlist.antt =====
-- utils.h: value lists, strings whose items are set apart by bytes 1.
pub mod Items
pub mod Encode
use autark.Prelude.{
  ℕ, zero, suc, ◌+◌, ◌-◌, ◌*◌, ◌/◌, ◌%◌, ◌^◌, ◌≤◌, ◌<◌, ◌≡◌, refl, sym, ap, ap₂, ◌∙◌, ◌≢◌, ◌↔◌, ◌⊎◌,
  inl, inr, Bool, true, false, not, ◌&&◌, ◌||◌, Option, none, some, List, [], ◌∷◌, ◌++◌, map,
  append-nil, append_assoc, map-append, flatten, arith, length, get_elem?, take, drop, replicate,
  length-append, length-replicate, take-append, drop-append, take-append-drop, length-take,
  length-drop, take_all, get_elem?-append, get_elem?-add_append, get_elem?-prefix, get_elem?_out,
  length-map, get_elem?-map, slice, blit, memmove, slice_split, blit_split, realloc, length-realloc,
  realloc_keeps, drop-add_append, blit_at, blit_gap, memmove_down, nonempty_split, onto, nonempty,
  skip_seps, item_len, segments, words, words-skip_seps, segments_first, skip_seps_head,
  length-skip_seps, words_cons, encode, IsItem, segments_item, segments_last, segments-encode,
  nonempty_items, words-encode, Bytes, str_eq, str_eq_refl, str_eq_iff, Without, All, ltb, leb,
  ◌==◌, if◌then◌else◌, ltb→lt, lt→ltb, leb→le, ==_iff, tests, Bool-cases, Option-cases, suc-ne-zero,
  eq_self,
}
use autark.Ulist.{Ulist, get}

-- The byte in front of an item.
abbrev pub sep : ℕ
sep = 1

-- is_vlist, of a string that is not null.
unfoldable pub is_vlist : Bytes → Bool
is_vlist [] = false
is_vlist (c ∷ s) = c == sep

-- struct vlist_iter: the text from the pointer `item` on, and `len`.
pub record VlistIter : Type 0 where
  pub item : Bytes
  pub len : ℕ

unfoldable pub vlist_iter_init : Bytes → VlistIter
vlist_iter_init vlist = record { item = vlist; len = 0 }

-- The iterator behind its skipped separators, which ends at the final zero.
unfoldable pub next_at : ℕ → Bytes → Bool × VlistIter
unfolding item_len
next_at len [] = (false, record { item = []; len = len })
next_at len (c ∷ s) = (true, record { item = c ∷ s; len = item_len sep (c ∷ s) })

unfoldable pub vlist_iter_next : VlistIter → Bool × VlistIter
unfolding next_at skip_seps
vlist_iter_next it = next_at it.len (skip_seps sep (drop it.len it.item))

abbrev pub cons_items : Bytes → Option (List Bytes) → Option (List Bytes)
cons_items x none = none
cons_items x (some xs) = some (x ∷ xs)

-- while (vlist_iter_next(&iter)) with the items that the loop sees; `none` if the fuel runs out.
unfoldable pub items_loop : ℕ → VlistIter → Option (List Bytes)
items_loop zero it = none
items_loop (suc fuel) it =
    let (more, it') = vlist_iter_next it in
    let rest : Option (List Bytes) = items_loop fuel it' in
    if more then cons_items (take it'.len it'.item) rest else some []

unfoldable pub vlist_items : Bytes → Option (List Bytes)
unfolding items_loop vlist_iter_init vlist_iter_next
vlist_items vlist = items_loop (length vlist + 1) (vlist_iter_init vlist)

-- ulist_to_vlist, with n rounds left at the index i; a null pointer faults.
unfoldable pub to_vlist_from : Ulist Bytes → ℕ → ℕ → Option Bytes
to_vlist_from list zero i = some []
to_vlist_from list (suc n) i =
    let rest = to_vlist_from list n (i + 1) in
    elim (get list i) [
      | some (some c) ↦ elim rest [ none ↦ none | some v ↦ some (sep ∷ (c ++ v)) ]
      | _ ↦ none
    ]

unfoldable pub ulist_to_vlist : Ulist Bytes → Option Bytes
unfolding to_vlist_from get
ulist_to_vlist list = to_vlist_from list list.num 0
