-- ===== src/Env/Examples.antt =====
-- autark_core.c, script.c: variables of two units, and the theorems at them.
use mathlib.Core.Option
use autark.Prelude.{
  ℕ, ◌≡◌, refl, Option, none, some, List, [], ◌∷◌, arith, Bytes, codes, str_eq, ◌==◌, if◌then◌else◌,
}
use autark.Map.Table.{
  map_max_load, map_entry_put, map_entry_find, put_loop, find_loop, map_nhash, map_hash_buf_key,
  hash_from, bit_xor, bit_and, next_slot,
}
use autark.Map.{map_put_str, map_get, map_reserve_entry, write_slot}
use autark.Env.{
  Units, Scope, unit_env_set_val, node_env_set, node_env_get, unit_env_get, unit_env_get_raw,
  item_value,
}
use autark.Env.Search.{unit_env_get-node_env_get}
use autark.Env.History.{Call, assign, assign_node, call, calls, effects, new_units}
use autark.Env.Lookup.{lookup, calls-node_env_get}

-- Unit 0 is above unit 1, and CC is set in both.
abbrev outer : Scope
outer = some 0 ∷ []

abbrev inner : Scope
inner = none ∷ some 1 ∷ none ∷ some 1 ∷ some 0 ∷ []

abbrev three_sets : List Call
three_sets =
    assign outer (codes "CC") (some (codes "gcc"))
    ∷ assign inner (codes "CC") (some (codes "clang"))
    ∷ assign_node outer (codes "LD") 7 0
    ∷ []

abbrev value_of : ℕ → Option Bytes
value_of n = if n == 7 then some (codes "lld") else none

abbrev no_process : Bytes → Option Bytes
no_process key = none

abbrev units_of : Option Units → Units
units_of none = new_units
units_of (some units) = units

abbrev one_set : Units
one_set = units_of (calls (assign outer (codes "CC") (some (codes "gcc")) ∷ []) new_units)

-- The inner node finds the variable of the outer unit.
outer_found :
    node_env_get value_of no_process one_set inner (codes "CC") ≡ some (some (codes "gcc"))
unfolding calls call node_env_set unit_env_set_val node_env_get unit_env_get_raw item_value
    map_put_str map_get map_reserve_entry map_max_load map_entry_put map_entry_find put_loop
    find_loop write_slot map_nhash map_hash_buf_key hash_from bit_xor bit_and next_slot str_eq
    Option.bind
outer_found = refl

calls-node_env_get_example :
    (units : Units) × (calls three_sets new_units ≡ some units)
    × ((scope : Scope) (key : Bytes)
        → node_env_get value_of no_process units scope key
          ≡ some (lookup value_of no_process (effects three_sets (λ u k. none)) scope key))
unfolding map_max_load
calls-node_env_get_example = calls-node_env_get value_of no_process three_sets (omega arith)

unit_env_get-node_env_get_example :
    unit_env_get value_of no_process one_set inner (codes "CC")
    ≡ node_env_get value_of no_process one_set inner (codes "CC")
unit_env_get-node_env_get_example =
    unit_env_get-node_env_get value_of no_process one_set (codes "CC") inner
