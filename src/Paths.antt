-- ===== src/Paths.antt =====
-- paths.c: the functions on the text of paths.
pub mod Normalize
pub mod Canonical
pub mod Normal
pub mod Prefix
pub mod Relative
mod Examples
use autark.Prelude.{
  ℕ, zero, suc, ◌+◌, ◌-◌, ◌*◌, ◌/◌, ◌%◌, ◌^◌, ◌≤◌, ◌<◌, ◌≡◌, refl, sym, ap, ap₂, ◌∙◌, ◌≢◌, ◌↔◌, ◌⊎◌,
  inl, inr, Bool, true, false, not, ◌&&◌, ◌||◌, Option, none, some, List, [], ◌∷◌, ◌++◌, map,
  append-nil, append_assoc, map-append, flatten, reverse, arith, length, get_elem?, take, drop,
  replicate, length-append, length-replicate, take-append, drop-append, take-append-drop,
  length-take, length-drop, take_all, get_elem?-append, get_elem?-add_append, get_elem?-prefix,
  get_elem?_out, length-map, get_elem?-map, slice, blit, memmove, slice_split, blit_split, realloc,
  length-realloc, realloc_keeps, drop-add_append, blit_at, blit_gap, memmove_down, nonempty_split,
  onto, nonempty, skip_seps, item_len, segments, words, words-skip_seps, segments_first,
  skip_seps_head, length-skip_seps, words_cons, encode, IsItem, segments_item, segments_last,
  segments-encode, nonempty_items, words-encode, Bytes, str_eq, str_eq_refl, str_eq_iff, Without,
  All, ltb, leb, ◌==◌, if◌then◌else◌, ltb→lt, lt→ltb, leb→le, ==_iff, tests, Bool-cases,
  Option-cases, suc-ne-zero, eq_self,
}
use autark.Utils.Text.{strncpy}

abbrev pub slash : ℕ
slash = b'/'

abbrev pub dot : Bytes
dot = b'.' ∷ []

abbrev pub dot_dot : Bytes
dot_dot = b'.' ∷ b'.' ∷ []

-- PATH_MAX of limits.h, which the platform fixes.
abbrev pub path_max : ℕ
path_max = 4096

unfoldable pub path_is_absolute : Option Bytes → Bool
path_is_absolute none = false
path_is_absolute (some []) = false
path_is_absolute (some (c ∷ s)) = c == slash

-- *s == '/' || *s == '\0'
unfoldable pub at_end : Bytes → Bool
at_end [] = true
at_end (c ∷ s) = c == slash

-- s[0] == '.' && (s[1] == '/' || s[1] == '\0')
unfoldable pub at_dot : Bytes → Bool
unfolding at_end
at_dot [] = false
at_dot (c ∷ s) = c == b'.' && at_end s

-- s[0] == '.' && s[1] == '.' && (s[2] == '/' || s[2] == '\0')
unfoldable pub at_dot_dot : Bytes → Bool
unfolding at_dot
at_dot_dot [] = false
at_dot_dot (c ∷ s) = c == b'.' && at_dot s

-- p[1] == '/'
unfoldable pub at_slash : Bytes → Bool
at_slash [] = false
at_slash (c ∷ s) = c == slash

-- The loop of _path_needs_normalize from the pointer p on.
unfoldable pub needs_normalize_from : Bytes → Bool
unfolding at_slash at_dot at_dot_dot
needs_normalize_from [] = false
needs_normalize_from (c ∷ s) =
    (c == slash && (at_slash s || (at_dot s || at_dot_dot s))) || needs_normalize_from s

-- path[len - 1] == '/'
unfoldable pub ends_in_slash : Bytes → Bool
ends_in_slash [] = false
ends_in_slash (c ∷ []) = c == slash
ends_in_slash (c ∷ d ∷ s) = ends_in_slash (d ∷ s)

unfoldable pub path_needs_normalize : Bytes → Bool
unfolding needs_normalize_from ends_in_slash
path_needs_normalize path = needs_normalize_from path || (ltb 1 (length path) && ends_in_slash path)

-- What a segment does to the stack `segments`, whose top comes first.
unfoldable pub push_segment : Bytes → List Bytes → List Bytes
push_segment segment stack =
    if str_eq segment dot
    then stack
    else if str_eq segment dot_dot
    then drop 1 stack
    else segment ∷ stack

-- A round of the loop over the segments at the text behind its slashes, with the rounds behind it.
unfoldable pub take_segment :
    List Bytes → (List Bytes → Bytes → Option (List Bytes)) → Bytes → Option (List Bytes)
unfolding push_segment
take_segment stack rest [] = some stack
take_segment stack rest (c ∷ s) =
    let len = item_len slash (c ∷ s) in
    rest (push_segment (take len (c ∷ s)) stack) (drop len (c ∷ s))

-- The loop; `none` if the fuel runs out.
unfoldable pub segments_loop : ℕ → List Bytes → Bytes → Option (List Bytes)
unfolding take_segment
segments_loop zero stack rp = none
segments_loop (suc fuel) stack rp =
    take_segment stack (λ t r. segments_loop fuel t r) (skip_seps slash rp)

-- The text that is written from the stack.
unfoldable pub path_of_segments : List Bytes → Bytes
path_of_segments [] = slash ∷ []
path_of_segments (top ∷ stack) = encode slash (reverse (top ∷ stack))

-- The text that is split: the path itself, or the working directory with the path behind it; `none`
-- if it does not fit in PATH_MAX, where the program ends.
unfoldable pub path_absolutize : Bytes → Bytes → Option Bytes
unfolding path_is_absolute strncpy
path_absolutize path cwd =
    let buf = strncpy [] cwd path_max in
    let len = length buf in
    if path_is_absolute (some path)
    then (if leb path_max (length path) then none else some path)
    else if ltb len (path_max - 1)
    then some (buf ++ (slash ∷ take (path_max - len - 2) path))
    else none

abbrev pub written : Option (List Bytes) → Option Bytes
written none = none
written (some stack) = some (path_of_segments stack)

unfoldable pub normalize_split : Bytes → Option Bytes
normalize_split buf = written (segments_loop (length buf + 1) [] buf)

-- The text in the buffer, normalized: the test before the loop is made for absolute paths only.
unfoldable pub normalize_buf : Bytes → Bytes → Option Bytes
normalize_buf path buf =
    if path_is_absolute (some path) && not (path_needs_normalize buf)
    then some buf
    else normalize_split buf

abbrev pub normalize_fitting : Bytes → Option Bytes → Option Bytes
normalize_fitting path none = none
normalize_fitting path (some buf) = normalize_buf path buf

unfoldable pub path_normalize_cwd : Bytes → Bytes → Option Bytes
path_normalize_cwd path cwd = normalize_fitting path (path_absolutize path cwd)
