-- ===== src/Utils/Text.antt =====
-- utils.h: tests and copies of C strings.
pub mod Prefix
use autark.Prelude.{
  ℕ, zero, suc, ◌+◌, ◌-◌, ◌*◌, ◌/◌, ◌%◌, ◌^◌, ◌≤◌, ◌<◌, ◌≡◌, refl, sym, ap, ap₂, ◌∙◌, ◌≢◌, ◌↔◌, ◌⊎◌,
  inl, inr, Bool, true, false, not, ◌&&◌, ◌||◌, Option, none, some, List, [], ◌∷◌, ◌++◌, map,
  append-nil, append_assoc, map-append, flatten, arith, length, get_elem?, take, drop, replicate,
  length-append, length-replicate, take-append, drop-append, take-append-drop, length-take,
  length-drop, take_all, get_elem?-append, get_elem?-add_append, get_elem?-prefix, get_elem?_out,
  length-map, get_elem?-map, slice, blit, memmove, slice_split, blit_split, realloc, length-realloc,
  realloc_keeps, drop-add_append, blit_at, blit_gap, memmove_down, nonempty_split, Bytes, str_eq,
  str_eq_refl, str_eq_iff, Without, All, ltb, leb, ◌==◌, if◌then◌else◌, ltb→lt, lt→ltb, leb→le,
  ==_iff, tests, Bool-cases, Option-cases, suc-ne-zero,
}

-- utils_char_is_space
unfoldable pub char_is_space : ℕ → Bool
char_is_space c = c == 32 || (leb 9 c && leb c 13)

-- utils_chars_replace
unfoldable pub chars_replace : Bytes → ℕ → ℕ → Bytes
chars_replace [] c r = []
chars_replace (b ∷ buf) c r = (if b == c then r else b) ∷ chars_replace buf c r

-- utils_toupper_ascii
unfoldable pub toupper_ascii : ℕ → ℕ
toupper_ascii c = if leb b'a' c && leb c b'z' then c - (b'a' - b'A') else c

-- utils_strnlen: the loop stops at the limit or at the final zero.
unfoldable pub strnlen : Bytes → ℕ → ℕ
strnlen s zero = 0
strnlen [] (suc n) = 0
strnlen (c ∷ s) (suc n) = suc (strnlen s n)

-- utils_strncpy: what `dst` holds afterwards, for a `dst` of `dst_sz` bytes.
unfoldable pub strncpy : Bytes → Bytes → ℕ → Bytes
unfolding strnlen
strncpy dst src dst_sz =
    if ltb 1 dst_sz then take (strnlen src (dst_sz - 1)) src else if dst_sz == 0 then dst else []

-- utils_strnncpy: `src` has `src_len` bytes to copy from.
unfoldable pub strnncpy : Bytes → Bytes → ℕ → ℕ → Bytes
strnncpy dst src src_len dst_sz =
    if ltb 1 dst_sz && ltb 0 src_len
    then take (if ltb src_len (dst_sz - 1) then src_len else dst_sz - 1) src
    else if dst_sz == 0
    then dst
    else []

-- strncmp(a, b, n) == 0
unfoldable pub strncmp_eq : ℕ → Bytes → Bytes → Bool
strncmp_eq zero a b = true
strncmp_eq (suc n) [] [] = true
strncmp_eq (suc n) [] (d ∷ b) = false
strncmp_eq (suc n) (c ∷ a) [] = false
strncmp_eq (suc n) (c ∷ a) (d ∷ b) = c == d && strncmp_eq n a b

-- utils_startswith; `none` is a null pointer.
unfoldable pub startswith : Option Bytes → Option Bytes → Bool
unfolding strncmp_eq
startswith none p = false
startswith (some str) none = false
startswith (some str) (some prefix) =
    if ltb (length str) (length prefix) then false else strncmp_eq (length prefix) str prefix

-- utils_endswith: where the suffix begins, plus one, or zero.
unfoldable pub endswith : Option Bytes → Option Bytes → ℕ
unfolding str_eq
endswith none p = 0
endswith (some str) none = 0
endswith (some str) (some suffix) =
    if ltb (length str) (length suffix)
    then 0
    else if str_eq (drop (length str - length suffix) str) suffix
    then length str - length suffix + 1
    else 0
