-- ===== src/Env/History.antt =====
-- autark_core.c, script.c: what a sequence of changes does to the variables of units.
use mathlib.Core.Option
use mathlib.Core.Path.{subst}
use autark.Prelude.{
  ℕ, ◌+◌, ◌≤◌, ◌≡◌, refl, inl, inr, Option, none, some, List, [], ◌∷◌, arith, length, Bytes, ◌==◌,
  if◌then◌else◌, Bool-cases,
}
use autark.Map.Table.{Map, max_capacity, map_max_load}
use autark.Map.{map_create_str, map_put_str}
use autark.Map.Refine.{Holds, map_create_str-Holds}
use autark.Map.Refine.Store.{update}
use autark.Map.Refine.Put.{map_put_str-Holds}
use autark.Map.Refine.Remove.{map_remove-Holds}
use autark.Env.{
  Item, Units, put_env, unit_env_set_val, unit_env_set_node, unit_env_remove, is_skipped, Scope,
  at_unit, node_env_set, node_env_set_node,
}

-- A variable of a node is set or unset, or gets the value of a node.
pub data Call : Type 0 where
  assign : Scope → Bytes → Option Bytes → Call
  assign_node : Scope → Bytes → ℕ → ℕ → Call

unfoldable pub call : Call → Units → Option Units
call (assign scope key val) units = node_env_set units scope key val
call (assign_node scope key node tag) units = node_env_set_node units scope key node tag

unfoldable pub calls : List Call → Units → Option Units
calls [] units = some units
calls (c ∷ cs) units = Option.bind (call c units) (calls cs)

-- What each unit has for each key.
abbrev pub Vars : Type 0
Vars = ℕ → Bytes → Option (Option Item)

unfoldable pub change : Vars → Scope → Bytes → Option (Option Item) → Vars
change f [] key o = f
change f (none ∷ scope) key o = change f scope key o
change f (some u ∷ scope) key o = λ v. if v == u then update (f u) key o else f v

abbrev pub new_item : Call → Option (Option Item)
new_item (assign scope key none) = none
new_item (assign scope key (some v)) = some (some (record { val = some v; n = none; tag = 0 }))
new_item (assign_node scope key node tag) =
    some (some (record { val = none; n = some node; tag = tag }))

-- What a call does to the variables: those of the nearest unit change.
unfoldable pub effect : Call → Vars → Vars
effect (assign scope key val) f =
    if is_skipped key then f else change f scope key (new_item (assign scope key val))
effect (assign_node scope key node tag) f =
    if is_skipped key then f else change f scope key (new_item (assign_node scope key node tag))

unfoldable pub effects : List Call → Vars → Vars
effects [] f = f
effects (c ∷ cs) f = effects cs (effect c f)

-- The maps of the units hold the variables, with at most n keys each.
pub record HoldsAll (units : Units) (f : Vars) (n : ℕ) : Type 0 where
  pub each : (u : ℕ) → Holds (units u) (f u)
  pub few : (u : ℕ) → (units u).count ≤ n

later-HoldsAll : (units : Units) (f : Vars) (n : ℕ) → HoldsAll units f n → HoldsAll units f (n + 1)
later-HoldsAll units f n h = record { each = h.each; few = λ u. omega (arith, h.few u) }

put_env-HoldsAll :
    (units : Units) (f : Vars) (n u : ℕ) (env : Map Item) (key : Bytes) (o : Option (Option Item))
    → HoldsAll units f n
    → Holds env (update (f u) key o)
    → env.count ≤ n + 1
    → HoldsAll (put_env units u env) (λ v. if v == u then update (f u) key o else f v) (n + 1)
put_env-HoldsAll units f n u env key o h g l = record {
  each = λ v. elim (Bool-cases (v == u)) [ inl y ↦ rw y g | inr c ↦ rw c (h.each v) ];
  few = λ v. elim (Bool-cases (v == u)) [ inl y ↦ rw y l | inr c ↦ rw c (omega (arith, h.few v)) ];
}

-- The nearest unit gets a map that differs at a key.
at_unit-HoldsAll :
    (units : Units) (f : Vars) (n : ℕ) (scope : Scope) (key : Bytes) (o : Option (Option Item))
    (act : ℕ → Option Units)
    → HoldsAll units f n
    → ((u : ℕ)
        → (env : Map Item) × (act u ≡ some (put_env units u env))
          × Holds env (update (f u) key o)
          × (env.count ≤ n + 1))
    → (r : Units) × (at_unit units scope act ≡ some r) × HoldsAll r (change f scope key o) (n + 1)
unfolding change
at_unit-HoldsAll units f n [] key o act h g = (units, refl, later-HoldsAll units f n h)
at_unit-HoldsAll units f n (none ∷ scope) key o act h g =
    at_unit-HoldsAll units f n scope key o act h g
at_unit-HoldsAll units f n (some u ∷ scope) key o act h g =
    let (env, q, holds, l) = g u in
    (put_env units u env, q, put_env-HoldsAll units f n u env key o h holds l)

put_item :
    (units : Units) (f : Vars) (n : ℕ) (key : Bytes) (item : Item)
    → HoldsAll units f n
    → n + 1 ≤ map_max_load max_capacity
    → (u : ℕ)
    → (env : Map Item) × (Option.map (put_env units u) (map_put_str (units u) key (some item))
        ≡ some (put_env units u env))
      × Holds env (update (f u) key (some (some item)))
      × (env.count ≤ n + 1)
put_item units f n key item h l u =
    let (r, q, g, freed, count) =
      map_put_str-Holds (units u) (f u) key (some item) (h.each u) (omega (arith, l, h.few u)) in
    (r, rw q refl, g, ground (arith, count, h.few u))

remove_item :
    (units : Units) (f : Vars) (n : ℕ) (key : Bytes)
    → HoldsAll units f n
    → (u : ℕ)
    → (env : Map Item) × (unit_env_remove units u key ≡ some (put_env units u env))
      × Holds env (update (f u) key none)
      × (env.count ≤ n + 1)
unfolding unit_env_remove
remove_item units f n key h u =
    let (r, q, g, freed, count) = map_remove-Holds (units u) (f u) key (h.each u) in
    (r, rw q refl, g, ground (arith, count, h.few u))

pub call-HoldsAll :
    (c : Call) (units : Units) (f : Vars) (n : ℕ)
    → HoldsAll units f n
    → n + 1 ≤ map_max_load max_capacity
    → (r : Units) × (call c units ≡ some r) × HoldsAll r (effect c f) (n + 1)
unfolding call effect node_env_set node_env_set_node unit_env_set_val unit_env_set_node
call-HoldsAll (assign scope key none) units f n h l = elim (Bool-cases (is_skipped key)) [
  | inl y ↦ rw y (units, refl, later-HoldsAll units f n h)
  | inr o ↦ rw o (
      at_unit-HoldsAll units f n scope key none (λ u. unit_env_remove units u key) h
        (remove_item units f n key h))
]
call-HoldsAll (assign scope key (some v)) units f n h l = elim (Bool-cases (is_skipped key)) [
  | inl y ↦ rw y (units, refl, later-HoldsAll units f n h)
  | inr o ↦ rw o (
      at_unit-HoldsAll units f n scope key (new_item (assign scope key (some v)))
        (λ u. unit_env_set_val units u key (some v)) h
        (put_item units f n key (record { val = some v; n = none; tag = 0 }) h l))
]
call-HoldsAll (assign_node scope key node tag) units f n h l = elim (Bool-cases (is_skipped key)) [
  | inl y ↦ rw y (units, refl, later-HoldsAll units f n h)
  | inr o ↦ rw o (
      at_unit-HoldsAll units f n scope key (new_item (assign_node scope key node tag))
        (λ u. unit_env_set_node units u key node tag) h
        (put_item units f n key (record { val = none; n = some node; tag = tag }) h l))
]

pub calls-HoldsAll :
    (cs : List Call) (units : Units) (f : Vars) (n : ℕ)
    → HoldsAll units f n
    → n + length cs ≤ map_max_load max_capacity
    → (r : Units) × (calls cs units ≡ some r) × HoldsAll r (effects cs f) (n + length cs)
unfolding calls effects Option.bind
calls-HoldsAll [] units f n h l = (units, refl, subst (λ k. HoldsAll units f k) (omega arith) h)
calls-HoldsAll (c ∷ cs) units f n h l =
    let (m, q, g) = call-HoldsAll c units f n h (omega (arith, l)) in
    let (r, q', g') = calls-HoldsAll cs m (effect c f) (n + 1) g (omega (arith, l)) in
    (r, rw q q', subst (λ k. HoldsAll r (effects cs (effect c f)) k) (omega arith) g')

abbrev pub new_units : Units
new_units u = map_create_str

pub new_units-HoldsAll : HoldsAll new_units (λ u key. none) 0
new_units-HoldsAll = record { each = λ u. map_create_str-Holds; few = λ u. omega arith }
