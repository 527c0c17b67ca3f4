-- ===== src/Utils/Examples.antt =====
-- utils.h, utils.c: the theorems at concrete strings, and runs of the functions.
use autark.Prelude.{◌≡◌, refl, none, some, List, [], ◌∷◌, ◌++◌, arith, words, Bytes, codes}
use autark.Ulist.{Ulist}
use autark.Ulist.Holds.{Holds}
use autark.Utils.Text.{char_is_space}
use autark.Utils.Json.{utils_json_escape_str}
use autark.Utils.Json.Denotes.{Denotes, utils_json_escape_str-Denotes}
use autark.Utils.Vlist.{sep, vlist_items}
use autark.Utils.Vlist.Items.{vlist_items-words}
use autark.Utils.Words.{split_values}
use autark.Utils.Words.Ends.{split_values-total}
use autark.Utils.Words.Spelling.{
  done, plain, opens, closes, inside, Line, end, blank, word, split_values-Line,
}

-- Two strings.
abbrev two : List Bytes
two = (b'a' ∷ b'b' ∷ []) ∷ (b'c' ∷ []) ∷ []

abbrev units : Ulist Bytes
units = record {
  array = some (b'a' ∷ b'b' ∷ []) ∷ some (b'c' ∷ []) ∷ [];
  start = 0;
  num = 2;
  anum = 2;
}

vlist_items-words_example :
    vlist_items (1 ∷ b'a' ∷ 1 ∷ 1 ∷ b'c' ∷ []) ≡ some (words sep (1 ∷ b'a' ∷ 1 ∷ 1 ∷ b'c' ∷ []))
vlist_items-words_example = vlist_items-words (1 ∷ b'a' ∷ 1 ∷ 1 ∷ b'c' ∷ [])

spelled :
    Line (b'"' ∷ b'a' ∷ b' ' ∷ b'"' ∷ b' ' ∷ b'b' ∷ []) ((b'a' ∷ b' ' ∷ []) ∷ (b'b' ∷ []) ∷ [])
unfolding char_is_space
spelled =
    word refl
      (opens refl refl (
        inside (λ e. omega arith) (λ e. omega arith) (λ e. omega arith)
          (inside (λ e. omega arith) (λ e. omega arith) (λ e. omega arith)
            (closes (λ e. omega arith) refl (λ e. omega arith) refl (done refl)))))
      refl (blank refl (word refl (plain refl (refl, refl, refl) (done refl)) tt end refl)) refl

split_values-Line_example :
    split_values (b'"' ∷ b'a' ∷ b' ' ∷ b'"' ∷ b' ' ∷ b'b' ∷ [])
    ≡ some ((b'a' ∷ b' ' ∷ []) ∷ (b'b' ∷ []) ∷ [])
split_values-Line_example = split_values-Line spelled

utils_json_escape_str-Denotes_example :
    (t : Bytes) × (utils_json_escape_str (codes "a\n\"") none []
      ≡ [] ++ (b'"' ∷ (t ++ (b'"' ∷ []))))
    × Denotes t (codes "a\n\"")
utils_json_escape_str-Denotes_example = utils_json_escape_str-Denotes (codes "a\n\"") []

split_values-total_example : (ws : List Bytes) × (split_values (codes "a 'b c' \\") ≡ some ws)
split_values-total_example = split_values-total (codes "a 'b c' \\")
