-- ===== src/Deps.antt =====
-- deps.c, deps.h: the records of what a build step depends on.
-- The file is what was read of it and what is left to read. The state of the file system and the
-- working directory are parameters of what asks for them.
pub mod Number
pub mod Line
pub mod RoundTrip
mod Examples
use mathlib.Core.Option
use autark.Prelude.{
  ℕ, zero, suc, ◌+◌, ◌-◌, ◌^◌, Bool, true, false, not, ◌||◌, Option, none, some, [], ◌∷◌, ◌++◌, map,
  Bytes, str_eq, ltb, ◌==◌, if◌then◌else◌,
}
use autark.Utils.Text.{chars_replace, strncpy}
use autark.Paths.{path_normalize_cwd}
use autark.Utils.Text.{chars_replace, strncpy}
use autark.Paths.{path_normalize_cwd}
use autark.Deps.Number.{ℤ, pos, negsuc, print_i64, strtoll}

-- The constants DEPS_TYPE_x.
abbrev pub deps_type_file : ℕ
deps_type_file = 102

abbrev pub deps_type_file_outdated : ℕ
deps_type_file_outdated = 111

abbrev pub deps_type_node_value : ℕ
deps_type_node_value = 118

abbrev pub deps_type_env : ℕ
deps_type_env = 101

abbrev pub deps_type_sys_env : ℕ
deps_type_sys_env = 115

abbrev pub deps_type_alias : ℕ
deps_type_alias = 97

abbrev pub deps_type_outdated : ℕ
deps_type_outdated = 120

abbrev pub deps_type_file_not_exists : ℕ
deps_type_file_not_exists = 110

abbrev pub deps_buf_sz : ℕ
deps_buf_sz = 262144

-- struct deps; `none` stands for a null pointer.
pub record Deps : Type 0 where
  pub type : ℕ
  pub flags : ℕ
  pub num_registered : ℕ
  pub serial : ℤ
  pub resource : Option Bytes
  pub alias : Option Bytes
  pub seen : Bytes
  pub rest : Bytes

-- fgets for a buffer of n + 1 bytes: the line read, and what is left to read.
unfoldable pub fgets : ℕ → Bytes → Bytes × Bytes
fgets zero s = ([], s)
fgets (suc n) [] = ([], [])
fgets (suc n) (c ∷ s) =
    let (line, rest) = fgets n s in if c == b'\n' then (c ∷ [], s) else (c ∷ line, rest)

-- The text in front of the first byte 1 and the text behind it.
unfoldable pub cut_first : Bytes → Option (Bytes × Bytes)
cut_first [] = none
cut_first (c ∷ s) =
    let later = cut_first s in
    if c == 1 then some ([], s) else Option.map (λ (r : Bytes × Bytes). (c ∷ r.0, r.1)) later

-- The text in front of the last byte 1 and the text behind it.
unfoldable pub cut_last : Bytes → Option (Bytes × Bytes)
cut_last [] = none
cut_last (c ∷ s) =
    let later = cut_last s in
    elim later [ some r ↦ some (c ∷ r.0, r.1) | none ↦ if c == 1 then some ([], s) else none ]

-- d->type == DEPS_TYPE_NODE_VALUE || d->type == DEPS_TYPE_ENV || d->type == DEPS_TYPE_SYS_ENV
abbrev pub holds_value : ℕ → Bool
holds_value type =
    type == deps_type_node_value || (type == deps_type_env || type == deps_type_sys_env)

-- d->type == DEPS_TYPE_ALIAS || d->type == DEPS_TYPE_ENV || d->type == DEPS_TYPE_SYS_ENV
abbrev pub holds_alias : ℕ → Bool
holds_alias type = type == deps_type_alias || (type == deps_type_env || type == deps_type_sys_env)

-- The types whose line ends with a number that is read.
abbrev pub holds_serial : ℕ → Bool
holds_serial type =
    type == deps_type_file || (type == deps_type_node_value || type == deps_type_alias)

-- What is read behind the last byte 1.
unfoldable pub read_serial : Bytes → Deps → Bool × Deps
read_serial ls d =
    if holds_serial d.type
    then elim (strtoll ls) [ none ↦ (false, d) | some z ↦ (true, record d { serial = z }) ]
    else (true, d)

-- The resource of a line, up to the last byte 1 if there is one.
unfoldable pub resource_at : Bytes → Deps → Option (Bytes × Bytes) → Bool × Deps
resource_at rp d none = (true, record d { resource = some rp })
resource_at rp d (some (r, ls)) = read_serial ls (record d { resource = some r })

unfoldable pub read_resource : Bytes → Deps → Bool × Deps
unfolding resource_at
read_resource rp d = resource_at rp d (cut_last rp)

-- The resource behind an alias; if there is one byte 1 only, both the resource and the number begin
-- behind it.
unfoldable pub resource_behind : Bytes → Deps → Option (Bytes × Bytes) → Bool × Deps
resource_behind r0 d none = read_serial r0 (record d { resource = some r0 })
resource_behind r0 d (some (r, ls)) = read_serial ls (record d { resource = some r })

unfoldable pub alias_at : Bytes → Deps → Option (Bytes × Bytes) → Bool × Deps
unfolding resource_behind
alias_at rp d none = (true, record d { alias = some rp; resource = none })
alias_at rp d (some (a, r0)) = resource_behind r0 (record d { alias = some a }) (cut_last r0)

unfoldable pub read_alias : Bytes → Deps → Bool × Deps
unfolding alias_at
read_alias rp d = alias_at rp d (cut_first rp)

-- What deps_cur_next does behind fgets; `none` if the line ends before its flags.
unfoldable pub read_line : Bytes → Deps → Option (Bool × Deps)
read_line [] d = some (false, d)
read_line (t ∷ []) d = none
read_line (t ∷ f ∷ body) d =
    let rp = if holds_value t then chars_replace body 2 b'\n' else body in
    some (
      if holds_alias t
      then read_alias rp (record d { type = t; flags = f })
      else read_resource rp (record d { type = t; flags = f; alias = none }))

unfoldable pub deps_cur_next : Deps → Option (Bool × Deps)
unfolding fgets
deps_cur_next d =
    let (line, rest) = fgets (deps_buf_sz - 1) d.rest in
    read_line line (record d { seen = d.seen ++ line; rest = rest })

-- The line that _deps_add writes.
unfoldable pub record_line : ℕ → ℕ → Bytes → Bytes → ℤ → Bytes
record_line type flags resource alias serial =
    let number = 1 ∷ (print_i64 serial ++ (b'\n' ∷ [])) in
    if holds_alias type
    then type ∷ flags ∷ (alias ++ (1 ∷ (resource ++ number)))
    else type ∷ flags ∷ (resource ++ number)

-- The text of a value in a line.
unfoldable pub escape_value : Bytes → Bytes
escape_value resource = chars_replace (strncpy [] resource deps_buf_sz) b'\n' 2

-- The file with the line at its end; the position to read from stays.
unfoldable pub append_line : Bytes → Deps → Deps
append_line line d = record d { rest = d.rest ++ line; num_registered = d.num_registered + 1 }

-- deps_add_env and deps_add_sys_env, by the type.
unfoldable pub add_env : ℕ → ℕ → Bytes → Bytes → Deps → Deps
unfolding record_line escape_value append_line
add_env type flags key value d =
    append_line
      (record_line type (if flags == 0 then b' ' else flags) (escape_value value) key (pos 0)) d

module _ (cwd : Bytes) (stat : Bytes → Option ℕ) where
  -- st.mtime if the file exists, and the number given otherwise
  unfoldable pub serial_of : Bytes → ℤ → ℤ
  serial_of path serial = elim (stat path) [ none ↦ serial | some m ↦ pos m ]

  -- deps_add, for the types without an alias; `none` where path_normalize ends the program.
  unfoldable pub deps_add : ℕ → ℕ → Bytes → ℤ → Deps → Option Deps
  unfolding serial_of record_line escape_value append_line
  deps_add type flags resource serial d =
      let fl = if flags == 0 then b' ' else flags in
      let add : ℕ → Bytes → ℤ → Deps = λ t r z. append_line (record_line t fl r [] z) d in
      if type == deps_type_file
      then Option.map (λ p. add type p (serial_of p serial)) (path_normalize_cwd resource cwd)
      else if type == deps_type_node_value
      then some (add type (escape_value resource) serial)
      else if type == deps_type_file_outdated
      then Option.map (λ p. add deps_type_file p (pos 0)) (path_normalize_cwd resource cwd)
      else if type == deps_type_file_not_exists
      then Option.map (λ p. add type p (pos 0)) (path_normalize_cwd resource cwd)
      else some (add type resource serial)

  unfoldable pub deps_add_alias : ℕ → Bytes → Bytes → Deps → Option Deps
  unfolding serial_of record_line append_line
  deps_add_alias flags resource alias d =
      let fl = if flags == 0 then b' ' else flags in
      elim (path_normalize_cwd resource cwd) [
        | none ↦ none
        | some r ↦
            Option.map
              (λ a. append_line (record_line deps_type_alias fl r a (serial_of a (pos 0))) d)
              (path_normalize_cwd alias cwd)
      ]

-- A serial as the comparison with the unsigned st.mtime reads it.
unfoldable pub u64_of : ℤ → ℕ
u64_of (pos n) = n
u64_of (negsuc n) = 2 ^ 64 - 1 - n

-- path_stat(path, &st) || st.ftype == AKPATH_NOT_EXISTS || st.mtime > serial
unfoldable pub file_changed : (Bytes → Option ℕ) → Bytes → ℤ → Bool
unfolding u64_of
file_changed stat path serial = elim (stat path) [ none ↦ true | some m ↦ ltb (u64_of serial) m ]

-- A variable that is not set counts as empty.
unfoldable pub value_changed : Option Bytes → Bytes → Bool
value_changed val resource = not (str_eq (elim val [ none ↦ [] | some v ↦ v ]) resource)

module _ (stat : Bytes → Option ℕ) (accessible : Bytes → Bool)
    (unit_env getenv : Bytes → Option Bytes) where
  -- The switch of deps_cur_is_outdated, at the type; `none` where a null pointer is read.
  unfoldable pub deps_cur_is_outdated : Deps → Option Bool
  unfolding file_changed value_changed
  deps_cur_is_outdated d =
      let by_env : (Bytes → Option Bytes) → Option Bool = λ env. elim d.alias [
        | none ↦ none
        | some a ↦ Option.map (value_changed (env a)) d.resource
      ] in
      if d.type == deps_type_file
      then Option.map (λ p. file_changed stat p d.serial) d.resource
      else if d.type == deps_type_alias
      then Option.map (λ p. file_changed stat p d.serial) d.alias
      else if d.type == deps_type_env
      then by_env unit_env
      else if d.type == deps_type_sys_env
      then by_env getenv
      else if d.type == deps_type_file_not_exists
      then Option.map accessible d.resource
      else some (d.type == deps_type_outdated)
