-- ===== src/Env/Lookup.antt =====
-- script.c: what node_env_get finds after any changes to the variables.
use mathlib.Core.Option
use autark.Prelude.{ℕ, ◌+◌, ◌≤◌, ◌≡◌, refl, Option, none, some, List, [], ◌∷◌, arith, length, Bytes}
use autark.Map.Table.{max_capacity, map_max_load}
use autark.Map.Refine.{map_get-Holds}
use autark.Env.{Units, Scope, or_above, item_value, unit_env_get_raw, node_env_get}
use autark.Env.History.{
  Call, calls, Vars, effects, HoldsAll, calls-HoldsAll, new_units, new_units-HoldsAll,
}

abbrev pub first_unit : Scope → Option ℕ
first_unit [] = none
first_unit (none ∷ scope) = first_unit scope
first_unit (some u ∷ scope) = some u

-- The first of two values that is there.
abbrev pub or_else : Option Bytes → Option Bytes → Option Bytes
or_else none above = above
or_else (some v) above = some v

or_above_lem :
    (r above : Option Bytes)
    → Option.bind (some r) (λ ret. or_above ret (some above)) ≡ some (or_else r above)
unfolding Option.bind
or_above_lem none above = refl
or_above_lem (some v) above = refl

module _ (node_value : ℕ → Option Bytes) (getenv : Bytes → Option Bytes) where
  -- The nearest unit up from a node that has a value decides, and else the process.
  unfoldable pub lookup : Vars → Scope → Bytes → Option Bytes
  lookup f [] key = getenv key
  lookup f (none ∷ scope) key = lookup f scope key
  lookup f (some u ∷ scope) key =
      or_else (item_value node_value (Option.bind (f u key) (λ v. v))) (lookup f scope key)

  node_env_get-lookup :
      (units : Units) (f : Vars) (n : ℕ) (scope : Scope) (key : Bytes)
      → HoldsAll units f n
      → node_env_get node_value getenv units scope key ≡ some (lookup f scope key)
  unfolding node_env_get unit_env_get_raw lookup
  node_env_get-lookup units f n [] key h = refl
  node_env_get-lookup units f n (none ∷ scope) key h = node_env_get-lookup units f n scope key h
  node_env_get-lookup units f n (some u ∷ scope) key h =
      rw (map_get-Holds (units u) (f u) key (h.each u), node_env_get-lookup units f n scope key h)
        (or_above_lem (item_value node_value (Option.bind (f u key) (λ v. v))) (lookup f scope key))

  -- After any changes to the variables of new units, fewer than the largest map has room for,
  -- node_env_get finds for each node and each key what the changes have left of it: the value in
  -- the nearest unit up from the node that has one, and else that of the process.
  pub calls-node_env_get :
      (cs : List Call)
      → length cs ≤ map_max_load max_capacity
      → (units : Units) × (calls cs new_units ≡ some units)
        × ((scope : Scope) (key : Bytes)
            → node_env_get node_value getenv units scope key
              ≡ some (lookup (effects cs (λ u k. none)) scope key))
  calls-node_env_get cs l =
      let (units, q, h) =
        calls-HoldsAll cs new_units (λ u k. none) 0 new_units-HoldsAll (omega (arith, l)) in
      (
        units,
        q,
        λ scope key.
            node_env_get-lookup units (effects cs (λ u k. none)) (0 + length cs) scope key h,
      )
