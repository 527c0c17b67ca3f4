-- ===== src/Env/Search.antt =====
-- autark_core.c, script.c: the two searches for a variable, node_env_get and unit_env_get.
use mathlib.Core.Option
use autark.Prelude.{
  ℕ, ◌≡◌, refl, ◌∙◌, inl, inr, Option, none, some, [], ◌∷◌, Bytes, ◌==◌, ==_iff, Bool-cases,
}
use autark.Env.{Units, Scope, unit_env_get_raw, or_above, node_env_get, env_get_from, unit_env_get}

module _ (node_value : ℕ → Option Bytes) (getenv : Bytes → Option Bytes) (units : Units)
    (key : Bytes) where
  -- The unit of which the search has been is known not to have the key.
  data Known : Option ℕ → Type 0 where
    nothing_yet : Known none
    missing : (p : ℕ) → unit_env_get_raw node_value units p key ≡ some none → Known (some p)

  go_on :
      (m a b : Option (Option Bytes))
      → (m ≡ some none → a ≡ b)
      → Option.bind m (λ ret. or_above ret a) ≡ Option.bind m (λ ret. or_above ret b)
  unfolding Option.bind
  go_on none a b h = refl
  go_on (some none) a b h = h refl
  go_on (some (some v)) a b h = refl

  passed_over :
      (m a : Option (Option Bytes)) → m ≡ some none → a ≡ Option.bind m (λ ret. or_above ret a)
  unfolding Option.bind
  passed_over m a h = rw h refl

  searches_agree :
      (prev : Option ℕ) (scope : Scope)
      → Known prev
      → env_get_from node_value getenv units prev scope key
        ≡ node_env_get node_value getenv units scope key
  unfolding env_get_from node_env_get
  searches_agree prev [] k = refl
  searches_agree prev (none ∷ scope) k = searches_agree prev scope k
  searches_agree prev (some u ∷ scope) nothing_yet =
      go_on (unit_env_get_raw node_value units u key)
        (env_get_from node_value getenv units (some u) scope key)
        (node_env_get node_value getenv units scope key)
        (λ h. searches_agree (some u) scope (missing u h))
  searches_agree prev (some u ∷ scope) (missing p q) = elim (Bool-cases (u == p)) [
    | inl y ↦
        let e = (==_iff u p).0 y in
        rw y (
          searches_agree (some p) scope (missing p q)
          ∙ passed_over (unit_env_get_raw node_value units u key)
              (node_env_get node_value getenv units scope key) (rw e q))
    | inr o ↦ rw o (
        go_on (unit_env_get_raw node_value units u key)
          (env_get_from node_value getenv units (some u) scope key)
          (node_env_get node_value getenv units scope key)
          (λ h. searches_agree (some u) scope (missing u h)))
  ]

  -- unit_env_get, which passes over a unit that it has just searched, finds what node_env_get finds,
  -- in all environments.
  pub unit_env_get-node_env_get :
      (scope : Scope)
      → unit_env_get node_value getenv units scope key
        ≡ node_env_get node_value getenv units scope key
  unfolding unit_env_get
  unit_env_get-node_env_get scope = searches_agree none scope nothing_yet
