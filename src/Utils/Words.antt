-- ===== src/Utils/Words.antt =====
-- utils.c: utils_split_values_add, which splits a text at spaces, with quotes and backslashes.
pub mod Spelling
pub mod Ends
use autark.Prelude.{
  ℕ, zero, suc, ◌+◌, ◌-◌, ◌*◌, ◌/◌, ◌%◌, ◌^◌, ◌≤◌, ◌<◌, ◌≡◌, refl, sym, ap, ap₂, ◌∙◌, ◌≢◌, ◌↔◌, ◌⊎◌,
  inl, inr, Bool, true, false, not, ◌&&◌, ◌||◌, Option, none, some, List, [], ◌∷◌, ◌++◌, map,
  append-nil, append_assoc, map-append, flatten, arith, length, get_elem?, take, drop, replicate,
  length-append, length-replicate, take-append, drop-append, take-append-drop, length-take,
  length-drop, take_all, get_elem?-append, get_elem?-add_append, get_elem?-prefix, get_elem?_out,
  length-map, get_elem?-map, slice, blit, memmove, slice_split, blit_split, realloc, length-realloc,
  realloc_keeps, drop-add_append, blit_at, blit_gap, memmove_down, nonempty_split, onto, nonempty,
  skip_seps, item_len, segments, words, words-skip_seps, segments_first, skip_seps_head,
  length-skip_seps, words_cons, encode, IsItem, segments_item, segments_last, segments-encode,
  nonempty_items, words-encode, Bytes, str_eq, str_eq_refl, str_eq_iff, Without, All, ltb, leb,
  ◌==◌, if◌then◌else◌, ltb→lt, lt→ltb, leb→le, ==_iff, tests, Bool-cases, Option-cases, suc-ne-zero,
  eq_self,
}
use autark.Utils.Text.{char_is_space}
use autark.Utils.Vlist.{sep, is_vlist, cons_items}

-- What the inner loop does with a byte: it stops, skips the byte or copies it to the word; then the
-- loop is behind a backslash or not, and has the open quote q (zero for none).
pub data Act : Type 0 where
  stop : Act
  skip copy : Bool → ℕ → Act

unfoldable pub act_at : Bool → ℕ → ℕ → Act
unfolding char_is_space
act_at true q c = copy false q
act_at false q c =
    if q == 0 && char_is_space c
    then stop
    else if c == b'\\'
    then skip true q
    else if not (q == 0)
    then (if c == q then skip false 0 else copy false q)
    else if c == b'\'' || c == b'"'
    then skip false c
    else copy false q

abbrev pub put_byte : ℕ → Bytes × Bytes → Bytes × Bytes
put_byte c (w, r) = (c ∷ w, r)

-- A round of the inner loop at the byte c, with the rounds behind it.
unfoldable pub scan_byte : Act → ℕ → Bytes → (Bool → ℕ → Bytes × Bytes) → Bytes × Bytes
scan_byte stop c s rest = ([], c ∷ s)
scan_byte (skip behind q) c s rest = rest behind q
scan_byte (copy behind q) c s rest = put_byte c (rest behind q)

-- The inner loop: the word that it copies, and the text at which it stops.
unfoldable pub scan_word : Bool → ℕ → Bytes → Bytes × Bytes
unfolding scan_byte
scan_word behind q [] = ([], [])
scan_word behind q (c ∷ s) = scan_byte (act_at behind q c) c s (λ d p. scan_word d p s)

-- while (utils_char_is_space(*p)) ++p
unfoldable pub skip_spaces : Bytes → Bytes
skip_spaces [] = []
skip_spaces (c ∷ s) = if char_is_space c then skip_spaces s else c ∷ s

-- A round of the outer loop at a word, with the rounds behind it.
unfoldable pub split_word : (Bytes → Option (List Bytes)) → Bytes → Option (List Bytes)
split_word rest [] = some []
split_word rest (c ∷ s) = let (w, r) = scan_word false 0 (c ∷ s) in cons_items w (rest r)

-- The outer loop; `none` if the fuel runs out.
unfoldable pub split_loop : ℕ → Bytes → Option (List Bytes)
unfolding split_word
split_loop zero p = none
split_loop (suc fuel) p = split_word (split_loop fuel) (skip_spaces p)

-- The words that a text which is no value list is split into.
unfoldable pub split_values : Bytes → Option (List Bytes)
unfolding split_loop scan_word skip_spaces act_at
split_values v = split_loop (length v + 1) v

-- What the buffer holds afterwards.
unfoldable pub split_values_add : Bytes → Bytes → Option Bytes
unfolding split_values is_vlist
split_values_add v xstr =
    if is_vlist v
    then some (xstr ++ v)
    else elim (split_values v) [ none ↦ none | some ws ↦ some (xstr ++ encode sep ws) ]
