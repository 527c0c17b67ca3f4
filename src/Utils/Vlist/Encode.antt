-- ===== src/Utils/Vlist/Encode.antt =====
-- utils.h, ulist.c: the items of a value list made from a list of strings are those strings.
use mathlib.Core.Option
use autark.Prelude.{◌≡◌, ap, ◌∙◌, some, List, encode, IsItem, words-encode, Bytes, All}
use autark.Ulist.{Ulist}
use autark.Ulist.Holds.{Holds}
use autark.Utils.Vlist.{sep, vlist_items}
use autark.Utils.Vlist.Items.{vlist_items-words}

-- The iterator gives back the strings that a value list was made of.
pub vlist_items-encode :
    (xs : List Bytes) → All (IsItem sep) xs → vlist_items (encode sep xs) ≡ some xs
vlist_items-encode xs all =
    vlist_items-words (encode sep xs) ∙ ap (λ (t : List Bytes). some t) (words-encode sep xs all)
