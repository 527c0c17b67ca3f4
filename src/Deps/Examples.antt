-- ===== src/Deps/Examples.antt =====
-- deps.c: the theorems at concrete records.
use autark.Prelude.{
  ℕ, ◌≡◌, refl, ◌↔◌, inl, true, false, Option, none, some, [], ◌∷◌, ◌++◌, arith, Bytes, codes,
}
use autark.Deps.{Deps, deps_type_env, deps_cur_next, add_env, deps_cur_is_outdated}
use autark.Deps.Number.{pos, print_i64, strtoll}
use autark.Deps.Number.Decimal.{strtoll-print}
use autark.Deps.RoundTrip.{shown, Recordable, deps_cur_next-add_env}
use autark.Deps.RoundTrip.Outdated.{or_empty, add_env-outdated}

-- A file that was just opened.
abbrev opened : Deps
opened = record {
  type = 0;
  flags = 0;
  num_registered = 0;
  serial = pos 0;
  resource = none;
  alias = none;
  seen = [];
  rest = [];
}

abbrev no_file : Bytes → Option ℕ
no_file path = none

abbrev some_time : Bytes → Option ℕ
some_time path = some 1700

abbrev no_variable : Bytes → Option Bytes
no_variable key = none

two_lines-Recordable : Recordable 0 (codes "CC") (codes "a\nb")
two_lines-Recordable = (
  refl,
  (refl, (refl, tt)),
  (refl, (refl, tt)),
  (refl, (refl, tt)),
  (refl, (refl, (refl, tt))),
  omega arith,
)

strtoll-print_example : strtoll (print_i64 (pos 1700) ++ (b'\n' ∷ [])) ≡ some (pos 1700)
strtoll-print_example = strtoll-print (pos 1700) (omega arith)

deps_cur_next-add_env_example :
    (d' : Deps) × (deps_cur_next (add_env deps_type_env 0 (codes "CC") (codes "a\nb") opened)
      ≡ some (true, d'))
    × (d'.type ≡ deps_type_env)
    × (d'.flags ≡ shown 0)
    × (d'.alias ≡ some (codes "CC"))
    × (d'.resource ≡ some (codes "a\nb"))
    × (d'.rest ≡ [])
deps_cur_next-add_env_example =
    deps_cur_next-add_env deps_type_env 0 (codes "CC") (codes "a\nb") opened (inl refl) refl
      two_lines-Recordable

add_env-outdated_example :
    (d' : Deps) × (deps_cur_next (add_env deps_type_env 0 (codes "CC") (codes "a\nb") opened)
      ≡ some (true, d'))
    × ((deps_cur_is_outdated no_file (λ p. false) no_variable no_variable d' ≡ some false)
        ↔ (or_empty (no_variable (codes "CC")) ≡ codes "a\nb"))
add_env-outdated_example =
    add_env-outdated no_file (λ p. false) no_variable no_variable 0 (codes "CC") (codes "a\nb")
      opened refl two_lines-Recordable
