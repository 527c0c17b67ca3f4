-- ===== src/Paths/Prefix.antt =====
-- paths.c: path_is_prefix_for, path_join_path_alloc and path_basename.
use autark.Prelude.{
  ◌≡◌, true, not, ◌&&◌, ◌||◌, Option, none, some, [], ◌∷◌, ◌++◌, length, drop, skip_seps, Bytes,
  ltb, ◌==◌, if◌then◌else◌,
}
use autark.Utils.Text.{startswith}
use autark.Paths.{slash, path_is_absolute, ends_in_slash, path_normalize_cwd}

-- The text behind the prefix `prefix`, at the pointer p.
unfoldable pub behind_prefix : Bytes → Bytes → Option Bytes
behind_prefix prefix [] = some []
behind_prefix prefix (c ∷ p) =
    if c == slash
    then some (skip_seps slash (c ∷ p))
    else if ends_in_slash prefix
    then some (c ∷ p)
    else none

-- The rest of path_is_prefix_for, at an absolute or normalized path.
unfoldable pub is_prefix_of : Bytes → Bytes → Option Bytes
unfolding behind_prefix
is_prefix_of prefix path =
    if ltb (length prefix) 1 || not (startswith (some path) (some prefix))
    then none
    else behind_prefix prefix (drop (length prefix) path)

abbrev pub is_prefix_of_normal : Bytes → Option Bytes → Option (Option Bytes)
is_prefix_of_normal prefix none = none
is_prefix_of_normal prefix (some path) = some (is_prefix_of prefix path)

-- path_is_prefix_for; the program ends, with the result `none`, for a prefix that is not absolute and
-- where path_normalize_cwd ends it.
unfoldable pub path_is_prefix_for : Bytes → Bytes → Bytes → Option (Option Bytes)
unfolding is_prefix_of
path_is_prefix_for prefix path cwd =
    if not (path_is_absolute (some prefix))
    then none
    else is_prefix_of_normal prefix
        (if path_is_absolute (some path) then some path else path_normalize_cwd path cwd)

-- path_join_path_alloc
unfoldable pub path_join_path : Bytes → Bytes → Bytes
path_join_path dir name =
    let slash_between = ltb 0 (length dir) && not (ends_in_slash dir) in
    dir ++ ((if slash_between then slash ∷ [] else []) ++ skip_seps slash name)

-- An empty text, or one that begins with a slash.
abbrev Open : Bytes → Type 0
Open [] = Unit
Open (c ∷ s) = (c == slash) ≡ true
