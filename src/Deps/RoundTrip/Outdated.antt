-- ===== src/Deps/RoundTrip/Outdated.antt =====
-- deps.c: a record is out of date exactly if what it holds has changed.
use autark.Prelude.{
  ℕ, ◌≡◌, refl, sym, ap, ◌∙◌, ◌↔◌, inl, Bool, true, false, not, Option, none, some, [], ◌∷◌, ◌++◌,
  arith, Bytes, str_eq, str_eq_iff,
}
use autark.Deps.{
  deps_type_env, deps_type_file, Deps, deps_cur_next, add_env, value_changed, deps_cur_is_outdated,
}
use autark.Deps.Number.{pos, print_i64}
use autark.Deps.RoundTrip.{shown, Recordable, deps_cur_next-add_env}

abbrev pub or_empty : Option Bytes → Bytes
or_empty none = []
or_empty (some v) = v

value_changed_iff :
    (val : Option Bytes) (v : Bytes) → (value_changed val v ≡ false) ↔ (or_empty val ≡ v)
unfolding value_changed
value_changed_iff none v = changed_iff [] v
  where
    changed_iff : (a b : Bytes) → (not (str_eq a b) ≡ false) ↔ (a ≡ b)
    changed_iff a b = (λ h. (str_eq_iff a b).0 (ground arith), λ e. rw ((str_eq_iff a b).1 e) refl)
value_changed_iff (some a) v =
    (λ h. (str_eq_iff a v).0 (ground arith), λ e. rw ((str_eq_iff a v).1 e) refl)

-- The line of a file, without its line end.
abbrev file_line : ℕ → Bytes → ℕ → Bytes
file_line flags p m = deps_type_file ∷ shown flags ∷ (p ++ (1 ∷ print_i64 (pos m)))

module _ (stat : Bytes → Option ℕ) (accessible : Bytes → Bool)
    (unit_env getenv : Bytes → Option Bytes) where
  outdated-env :
      (d : Deps) (key value : Bytes)
      → d.type ≡ deps_type_env
      → d.alias ≡ some key
      → d.resource ≡ some value
      → deps_cur_is_outdated stat accessible unit_env getenv d
        ≡ some (value_changed (unit_env key) value)
  unfolding deps_cur_is_outdated
  outdated-env d key value t a r = rw (t, a, r) refl

  -- The record of a variable of the unit that can be recorded, read back in whatever environment, is up
  -- to date exactly if the variable has the recorded value; a variable that is not set counts as empty.
  pub add_env-outdated :
      (flags : ℕ) (key value : Bytes) (d : Deps)
      → d.rest ≡ []
      → Recordable flags key value
      → (d' : Deps) × (deps_cur_next (add_env deps_type_env flags key value d) ≡ some (true, d'))
        × ((deps_cur_is_outdated stat accessible unit_env getenv d' ≡ some false)
            ↔ (or_empty (unit_env key) ≡ value))
  add_env-outdated flags key value d at_end ok =
      let (d', next, t, f, a, r, e) =
        deps_cur_next-add_env deps_type_env flags key value d (inl refl) at_end ok in
      let tested = outdated-env d' key value t a r in
      let changed = value_changed_iff (unit_env key) value in
      (
        d',
        next,
        (
          λ h. changed.0 (some_inj (sym tested ∙ h)),
          λ e. tested ∙ ap (λ (b : Bool). some b) (changed.1 e),
        ),
      )
    where
      some_inj : {a b : Bool} → some a ≡ some b → a ≡ b
      some_inj h = cc
