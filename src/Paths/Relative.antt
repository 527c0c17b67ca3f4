-- ===== src/Paths/Relative.antt =====
-- paths.c: path_relativize_cwd and path_basename.
use mathlib.Core.Option
use autark.Prelude.{
  ℕ, zero, suc, ◌+◌, ◌-◌, Bool, false, ◌&&◌, ◌||◌, Option, none, some, [], ◌∷◌, ◌++◌, length, take,
  drop, Bytes, codes, str_eq, ltb, ◌==◌, if◌then◌else◌,
}
use autark.Paths.{slash, ends_in_slash, path_normalize_cwd}

-- _path_num_segments
unfoldable pub count_slashes : Bytes → ℕ
count_slashes [] = 0
count_slashes (c ∷ path) = if c == slash then suc (count_slashes path) else count_slashes path

unfoldable pub path_num_segments : Bytes → ℕ
unfolding count_slashes
path_num_segments path = if str_eq path (slash ∷ []) then 0 else count_slashes path

-- The variables of path_relativize_cwd: the texts from the pointers frp, trp and srp on, and sc.
pub record Common : Type 0 where
  pub frp : Bytes
  pub trp : Bytes
  pub srp : Bytes
  pub sc : ℕ

-- The loop over the bytes that both paths have.
unfoldable pub common_loop : Bytes → Bytes → Bytes → ℕ → Common
common_loop [] [] srp sc = record { frp = []; trp = []; srp = []; sc = sc + 1 }
common_loop [] (d ∷ t) srp sc = record { frp = []; trp = d ∷ t; srp = srp; sc = sc }
common_loop (c ∷ f) [] srp sc = record { frp = c ∷ f; trp = []; srp = srp; sc = sc }
common_loop (c ∷ f) (d ∷ t) srp sc =
    let at_slash = common_loop f t (d ∷ t) (sc + 1) in
    let inside = common_loop f t srp sc in
    if c == d
    then (if c == slash then at_slash else inside)
    else record { frp = c ∷ f; trp = d ∷ t; srp = srp; sc = sc }

abbrev pub at_slash_byte : Bytes → Bool
at_slash_byte [] = false
at_slash_byte (c ∷ s) = c == slash

-- The test behind the loop, for a path that is a prefix of the other.
unfoldable pub close_common : Common → Common
close_common k =
    if (str_eq k.frp [] && at_slash_byte k.trp) || (at_slash_byte k.frp && str_eq k.trp [])
    then record k { sc = k.sc + 1; srp = k.trp }
    else k

-- n times "../"
unfoldable pub ups : ℕ → Bytes
ups zero = []
ups (suc n) = codes "../" ++ ups n

-- The path without a slash at its end, and "." for an empty one.
unfoldable pub trim_relative : Bytes → Bytes
trim_relative [] = b'.' ∷ []
trim_relative (c ∷ s) =
    if ltb 1 (length (c ∷ s)) && ends_in_slash (c ∷ s) then take (length s) (c ∷ s) else c ∷ s

-- path_relativize_cwd at normalized paths.
unfoldable pub relativize : Bytes → Bytes → Bytes
unfolding path_num_segments common_loop close_common ups trim_relative
relativize from to =
    let k = close_common (common_loop (drop 1 from) (drop 1 to) to 0) in
    trim_relative (ups (path_num_segments from - k.sc) ++ drop 1 k.srp)

-- path_relativize_cwd; `none` for `from` is a null pointer, which stands for the working directory.
unfoldable pub path_relativize_cwd : Option Bytes → Bytes → Bytes → Option Bytes
unfolding relativize
path_relativize_cwd from_ to_ cwd =
    elim (path_normalize_cwd (elim from_ [ none ↦ cwd | some p ↦ p ]) cwd) [
      | none ↦ none
      | some from ↦ Option.map (λ to. relativize from to) (path_normalize_cwd to_ cwd)
    ]

-- The loop of path_basename that goes back to the slash in front of the name.
unfoldable pub last_name : Bytes → Bytes → Bytes
last_name name [] = name
last_name name (c ∷ s) = if c == slash then last_name s s else last_name name s

-- The loop that clears the slashes at the end.
unfoldable pub trim_slashes : Bytes → Bytes
trim_slashes [] = []
trim_slashes (c ∷ s) =
    let rest = trim_slashes s in
    elim rest [ [] ↦ if c == slash then [] else c ∷ [] | d ∷ t ↦ c ∷ d ∷ t ]

-- The name in a path of which slashes at the end are cleared, but not its first byte.
unfoldable pub name_of : Bytes → Bytes
name_of path = if length path == 1 then path else last_name path path

-- path_basename
unfoldable pub path_basename : Option Bytes → Bytes
unfolding trim_slashes last_name name_of
path_basename none = b'.' ∷ []
path_basename (some []) = b'.' ∷ []
path_basename (some (c ∷ s)) = name_of (c ∷ trim_slashes s)
