-- ===== src/Env.antt =====
-- autark_core.c and script.c: the variables of units, and how nodes find and set them.
pub mod Search
pub mod History
pub mod Lookup
mod Examples
use mathlib.Core.Option
use autark.Prelude.{
  ℕ, Bool, false, Option, none, some, List, [], ◌∷◌, map, Bytes, codes, str_eq, ◌==◌, if◌then◌else◌,
}
use autark.Map.Table.{Map}
use autark.Map.{map_put_str, map_get, map_remove}

-- struct unit_env_item
pub record Item : Type 0 where
  pub val : Option Bytes
  pub n : Option ℕ
  pub tag : ℕ

-- The map `env` of each unit.
abbrev pub Units : Type 0
Units = ℕ → Map Item

abbrev pub put_env : Units → ℕ → Map Item → Units
put_env units u env v = if v == u then env else units v

unfoldable pub unit_env_set_val : Units → ℕ → Bytes → Option Bytes → Option Units
unit_env_set_val units u key val =
    Option.map (put_env units u)
      (map_put_str (units u) key (some (record { val = val; n = none; tag = 0 })))

unfoldable pub unit_env_set_node : Units → ℕ → Bytes → ℕ → ℕ → Option Units
unit_env_set_node units u key node tag =
    Option.map (put_env units u)
      (map_put_str (units u) key (some (record { val = none; n = some node; tag = tag })))

unfoldable pub unit_env_remove : Units → ℕ → Bytes → Option Units
unit_env_remove units u key = Option.map (λ r. put_env units u r.0) (map_remove (units u) key)

-- unit_env_get_node, with what it writes to out_tag
unfoldable pub unit_env_get_node : Units → ℕ → Bytes → Option (Option ℕ × ℕ)
unit_env_get_node units u key =
    Option.map (λ found. elim found [ none ↦ (none, 0) | some item ↦ (item.n, item.tag) ])
      (map_get (units u) key)

-- The name _, which cannot be set.
abbrev pub is_skipped : Bytes → Bool
is_skipped key = str_eq key (codes "_")

-- The units at a node and the nodes above it, from the node on: n->unit, n->parent->unit, ...
abbrev pub Scope : Type 0
Scope = List (Option ℕ)

-- The loop that comes to the nearest unit and does something there.
abbrev pub at_unit : Units → Scope → (ℕ → Option Units) → Option Units
at_unit units [] act = some units
at_unit units (none ∷ scope) act = at_unit units scope act
at_unit units (some u ∷ scope) act = act u

unfoldable pub node_env_set : Units → Scope → Bytes → Option Bytes → Option Units
node_env_set units scope key none =
    if is_skipped key then some units else at_unit units scope (λ u. unit_env_remove units u key)
node_env_set units scope key (some val) =
    if is_skipped key
    then some units
    else at_unit units scope (λ u. unit_env_set_val units u key (some val))

-- node_env_set_node of a node
unfoldable pub node_env_set_node : Units → Scope → Bytes → ℕ → ℕ → Option Units
node_env_set_node units scope key node tag =
    if is_skipped key
    then some units
    else at_unit units scope (λ u. unit_env_set_node units u key node tag)

-- A value that is found, or the search further up.
abbrev pub or_above : Option Bytes → Option (Option Bytes) → Option (Option Bytes)
or_above none rest = rest
or_above (some v) rest = some (some v)

abbrev pub is_prev : Option ℕ → ℕ → Bool
is_prev none u = false
is_prev (some p) u = u == p

-- What node_value and getenv return is given.
module _ (node_value : ℕ → Option Bytes) where
  -- The value of what the map has for a key: its text, or the value of its node.
  unfoldable pub item_value : Option Item → Option Bytes
  item_value none = none
  item_value (some item) = elim item.val [ some v ↦ some v | none ↦ Option.bind item.n node_value ]

  unfoldable pub unit_env_get_raw : Units → ℕ → Bytes → Option (Option Bytes)
  unit_env_get_raw units u key = Option.map item_value (map_get (units u) key)

  module _ (getenv : Bytes → Option Bytes) where
    unfoldable pub node_env_get : Units → Scope → Bytes → Option (Option Bytes)
    node_env_get units [] key = some (getenv key)
    node_env_get units (none ∷ scope) key = node_env_get units scope key
    node_env_get units (some u ∷ scope) key =
        let rest = node_env_get units scope key in
        Option.bind (unit_env_get_raw units u key) (λ ret. or_above ret rest)

    -- unit_env_get from a node on, behind the unit `prev`.
    unfoldable pub env_get_from : Units → Option ℕ → Scope → Bytes → Option (Option Bytes)
    env_get_from units prev [] key = some (getenv key)
    env_get_from units prev (none ∷ scope) key = env_get_from units prev scope key
    env_get_from units prev (some u ∷ scope) key =
        let same = env_get_from units prev scope key in
        let rest = env_get_from units (some u) scope key in
        if is_prev prev u
        then same
        else Option.bind (unit_env_get_raw units u key) (λ ret. or_above ret rest)

    unfoldable pub unit_env_get : Units → Scope → Bytes → Option (Option Bytes)
    unfolding env_get_from
    unit_env_get units scope key = env_get_from units none scope key
