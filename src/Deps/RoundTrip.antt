-- ===== src/Deps/RoundTrip.antt =====
-- deps.c: what is written to a dependency file is read back.
pub mod Outdated
use mathlib.Core.Option
use autark.Prelude.{
  ℕ, zero, suc, ◌+◌, ◌-◌, ◌≤◌, ◌<◌, ◌≡◌, refl, sym, ap, ap₂, ◌∙◌, ◌⊎◌, Bool, true, false, Option,
  some, [], ◌∷◌, ◌++◌, append-nil, append_assoc, arith, length, take, length-append, take_all,
  Bytes, Without, ◌==◌, if◌then◌else◌,
}
use autark.Utils.Text.{chars_replace, strncpy, strnlen}
use autark.Deps.{
  deps_buf_sz, deps_type_env, deps_type_sys_env, Deps, fgets, holds_value, holds_alias,
  holds_serial, read_serial, resource_behind, alias_at, read_alias, read_line, deps_cur_next,
  record_line, escape_value, append_line, add_env,
}
use autark.Deps.Number.{pos, print_i64, digits}
use autark.Deps.Line.{
  fgets-line, cut_first-append, cut_last-append, replace-append, replace-replace, replace-Without,
  replaced-Without, length-replace, Without-append, print-Without,
}

abbrev pub nl : Bytes
nl = b'\n' ∷ []

-- A line at the end of the file is read whole.
pub next_line :
    (l : Bytes) (d : Deps)
    → d.rest ≡ l ++ nl
    → Without b'\n' l
    → length l < deps_buf_sz - 1
    → deps_cur_next d ≡ read_line (l ++ nl) (record d { seen = d.seen ++ (l ++ nl); rest = [] })
unfolding deps_cur_next
next_line l d e w h =
    ap (λ (r : Bytes × Bytes). read_line r.0 (record d { seen = d.seen ++ r.0; rest = r.1 }))
      (ap (fgets (deps_buf_sz - 1)) (e ∙ sym (append-nil (l ++ nl)))
        ∙ fgets-line (deps_buf_sz - 1) l [] w h)

strnlen_all : (s : Bytes) (n : ℕ) → length s ≤ n → strnlen s n ≡ length s
unfolding strnlen
strnlen_all [] zero h = refl
strnlen_all [] (suc n) h = refl
strnlen_all (c ∷ s) zero h = absurd (omega arith)
strnlen_all (c ∷ s) (suc n) h = ap (λ k. suc k) (strnlen_all s n (omega arith))

-- A value that fits in the buffer is kept whole.
escape_value_lem : (v : Bytes) → length v < deps_buf_sz → escape_value v ≡ chars_replace v b'\n' 2
unfolding escape_value strncpy
escape_value_lem v h =
    ap (λ s. chars_replace s b'\n' 2)
      (ap (λ n. take n v) (strnlen_all v (deps_buf_sz - 1) (omega arith))
        ∙ take_all (length v) v (omega arith))

-- A text of a line in which values have their line ends back.
unescaped :
    (v t : Bytes)
    → Without 2 v
    → Without 2 t
    → chars_replace (chars_replace v b'\n' 2 ++ (1 ∷ t)) 2 b'\n' ≡ v ++ (1 ∷ t)
unescaped v t w u =
    replace-append (chars_replace v b'\n' 2) (1 ∷ t) 2 b'\n'
    ∙ ap₂ ◌++◌ (replace-replace v b'\n' 2 w) (replace-Without (1 ∷ t) 2 b'\n' (refl, u))

-- The texts that key and value make in a line.
abbrev env_text : Bytes → Bytes → Bytes → Bytes
env_text key v number = key ++ (1 ∷ (v ++ (1 ∷ number)))

env_text_unescaped :
    (key v t : Bytes)
    → Without 2 key
    → Without 2 v
    → Without 2 t
    → chars_replace (env_text key (chars_replace v b'\n' 2) t) 2 b'\n' ≡ env_text key v t
env_text_unescaped key v t k w u =
    replace-append key (1 ∷ (chars_replace v b'\n' 2 ++ (1 ∷ t))) 2 b'\n'
    ∙ ap₂ ◌++◌ (replace-Without key 2 b'\n' k) (
        replace-append (1 ∷ []) (chars_replace v b'\n' 2 ++ (1 ∷ t)) 2 b'\n'
        ∙ ap₂ ◌++◌ (replace-Without (1 ∷ []) 2 b'\n' (refl, tt)) (unescaped v t w u))

env_text-append : (key v t : Bytes) → env_text key v t ++ nl ≡ env_text key v (t ++ nl)
env_text-append key v t =
    append_assoc key (1 ∷ (v ++ (1 ∷ t))) nl ∙ ap (λ s. key ++ (1 ∷ s)) (append_assoc v (1 ∷ t) nl)

-- A type of a record for a variable.
abbrev pub IsEnvType : ℕ → Type 0
IsEnvType type = (type ≡ deps_type_env) ⊎ (type ≡ deps_type_sys_env)

env_tests :
    (type : ℕ)
    → IsEnvType type
    → (holds_alias type ≡ true) × (holds_value type ≡ true) × (holds_serial type ≡ false)
env_tests type e = ground arith

read_alias-env :
    (key v t : Bytes) (d : Deps)
    → Without 1 key
    → Without 1 t
    → holds_serial d.type ≡ false
    → read_alias (env_text key v t) d ≡ (true, record d { alias = some key; resource = some v })
unfolding read_alias alias_at resource_behind read_serial
read_alias-env key v t d k u e =
    ap (alias_at (env_text key v t) d) (cut_first-append key (v ++ (1 ∷ t)) k)
    ∙ ap (resource_behind (v ++ (1 ∷ t)) (record d { alias = some key })) (cut_last-append v t u)
    ∙ rw e refl

read_line-env :
    (type flags : ℕ) (key v t : Bytes) (d : Deps)
    → IsEnvType type
    → Without 1 key
    → Without 2 key
    → Without 2 v
    → Without 1 t
    → Without 2 t
    → read_line (type ∷ flags ∷ env_text key (chars_replace v b'\n' 2) t) d
      ≡ some (true, record d { type = type; flags = flags; alias = some key; resource = some v })
unfolding read_line
read_line-env type flags key v t d e k1 k2 w t1 t2 =
    let (has_alias, has_value, no_serial) = env_tests type e in
    rw (has_alias, has_value, env_text_unescaped key v t k2 w t2)
      (ap (λ (r : Bool × Deps). some r)
        (read_alias-env key v t (record d { type = type; flags = flags }) k1 t1 no_serial))

-- What is written for a variable.
env_line :
    (type flags : ℕ) (key v : Bytes)
    → IsEnvType type
    → record_line type flags v key (pos 0)
      ≡ (type ∷ flags ∷ env_text key v (print_i64 (pos 0))) ++ nl
unfolding record_line
env_line type flags key v e =
    rw (env_tests type e).0
      (ap (λ s. type ∷ flags ∷ s) (sym (env_text-append key v (print_i64 (pos 0)))))

-- The flags as they are written.
abbrev pub shown : ℕ → ℕ
shown flags = if flags == 0 then b' ' else flags

env_line-Without :
    (type flags : ℕ) (key value : Bytes)
    → IsEnvType type
    → (flags == b'\n') ≡ false
    → Without b'\n' key
    → Without b'\n'
        (type ∷ shown flags ∷ env_text key (chars_replace value b'\n' 2) (print_i64 (pos 0)))
env_line-Without type flags key value e f k =
    let v = chars_replace value b'\n' 2 in
    (
      ground arith,
      (
        ground arith,
        Without-append b'\n' key (1 ∷ (v ++ (1 ∷ print_i64 (pos 0)))) k (
          refl,
          Without-append b'\n' v (1 ∷ print_i64 (pos 0)) (replaced-Without value b'\n' 2 refl)
              (refl, print-Without b'\n' (pos 0) (omega arith)),
        ),
      ),
    )

zero_text : length (print_i64 (pos 0)) ≡ 1
unfolding print_i64 digits
zero_text = refl

env_line-fits :
    (type flags : ℕ) (key value : Bytes)
    → length key + length value + 6 < deps_buf_sz
    → length (type ∷ shown flags ∷ env_text key (chars_replace value b'\n' 2) (print_i64 (pos 0)))
      < deps_buf_sz - 1
env_line-fits type flags key value fits =
    let v = chars_replace value b'\n' 2 in
    omega (
      arith,
      length-append key (1 ∷ (v ++ (1 ∷ print_i64 (pos 0)))),
      length-append v (1 ∷ print_i64 (pos 0)),
      length-replace value b'\n' 2,
      zero_text,
      fits,
    )

-- What a variable must be for its record to be read back: the key has no bytes 1, 2 or line ends, the
-- value has no byte 2, the flags are no line end and the line fits in the buffer.
abbrev pub Recordable : ℕ → Bytes → Bytes → Type 0
Recordable flags key value =
    ((flags == b'\n') ≡ false)
    × Without 1 key
    × Without 2 key
    × Without b'\n' key
    × Without 2 value
    × (length key + length value + 6 < deps_buf_sz)

-- A variable that can be recorded and is recorded at the end of the file is read back with its key and
-- its value, whatever line ends and bytes 1 the value has.
pub deps_cur_next-add_env :
    (type flags : ℕ) (key value : Bytes) (d : Deps)
    → IsEnvType type
    → d.rest ≡ []
    → Recordable flags key value
    → (d' : Deps) × (deps_cur_next (add_env type flags key value d) ≡ some (true, d'))
      × (d'.type ≡ type)
      × (d'.flags ≡ shown flags)
      × (d'.alias ≡ some key)
      × (d'.resource ≡ some value)
      × (d'.rest ≡ [])
unfolding add_env append_line
deps_cur_next-add_env type flags key value d e at_end (f, k1, k2, k10, w, fits) =
    let ev = chars_replace value b'\n' 2 in
    let l = type ∷ shown flags ∷ env_text key ev (print_i64 (pos 0)) in
    let line : record_line type (shown flags) (escape_value value) key (pos 0) ≡ l ++ nl =
      ap (λ s. record_line type (shown flags) s key (pos 0)) (escape_value_lem value (omega arith))
      ∙ env_line type (shown flags) key ev e in
    let written : (add_env type flags key value d).rest ≡ l ++ nl = ap₂ ◌++◌ at_end line in
    let t = print_i64 (pos 0) ++ nl in
    let number =
      (Without-append 1 (print_i64 (pos 0)) nl (print-Without 1 (pos 0) (omega arith))
        (refl, tt)) in
    let number' =
      (Without-append 2 (print_i64 (pos 0)) nl (print-Without 2 (pos 0) (omega arith))
        (refl, tt)) in
    let d1 : Deps = record (add_env type flags key value d) {
      seen = d.seen ++ (l ++ nl);
      rest = [];
    } in
    (
      record d1 { type = type; flags = shown flags; alias = some key; resource = some value },
      next_line l (add_env type flags key value d) written
            (env_line-Without type flags key value e f k10)
            (env_line-fits type flags key value fits)
          ∙ ap (λ s. read_line (type ∷ shown flags ∷ s) d1)
              (env_text-append key ev (print_i64 (pos 0)))
          ∙ read_line-env type (shown flags) key value t d1 e k1 k2 w number number',
      refl,
      refl,
      refl,
      refl,
      refl,
    )
