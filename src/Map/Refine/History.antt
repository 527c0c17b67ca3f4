-- ===== src/Map/Refine/History.antt =====
-- map.c: any sequence of calls on a new map.
use mathlib.Core.Option
use autark.Prelude.{
  ℕ, ◌+◌, ◌-◌, ◌/◌, ◌≤◌, ◌≡◌, refl, Option, none, some, List, [], ◌∷◌, arith, length, Bytes,
}
use autark.Map.Table.{Map, max_capacity, map_max_load}
use autark.Map.{map_create_str, map_put_str, map_remove, map_get}
use autark.Map.Cycle.{pow_two}
use autark.Map.Refine.{Holds, map_create_str-Holds, map_get-Holds}
use autark.Map.Refine.Store.{update}
use autark.Map.Refine.Put.{map_put_str-Holds}
use autark.Map.Refine.Remove.{map_remove-Holds}

-- A call that changes a map.
pub data Call {ℓ} (V : Type ℓ) : Type ℓ where
  put : Bytes → Option V → Call V
  remove : Bytes → Call V

module _ {ℓ} {V : Type ℓ} where
  unfoldable pub call : Call V → Map V → Option (Map V)
  call (put key val) hm = map_put_str hm key val
  call (remove key) hm = Option.map (λ r. r.0) (map_remove hm key)

  -- The calls, the first in the list first.
  unfoldable pub calls : List (Call V) → Map V → Option (Map V)
  calls [] hm = some hm
  calls (c ∷ cs) hm = Option.bind (call c hm) (calls cs)

  -- What a call does to the function from keys to values.
  unfoldable pub effect : Call V → (Bytes → Option (Option V)) → Bytes → Option (Option V)
  effect (put key val) f = update f key (some val)
  effect (remove key) f = update f key none

  unfoldable pub effects : List (Call V) → (Bytes → Option (Option V)) → Bytes → Option (Option V)
  unfolding effect
  effects [] f = f
  effects (c ∷ cs) f = effects cs (effect c f)

  call-Holds :
      (c : Call V) (hm : Map V) (f : Bytes → Option (Option V))
      → Holds hm f
      → hm.count + 1 ≤ map_max_load max_capacity
      → (r : Map V) × (call c hm ≡ some r) × Holds r (effect c f) × (r.count ≤ hm.count + 1)
  unfolding call effect
  call-Holds (put key val) hm f h l =
      let (r, q, g, freed, count) = map_put_str-Holds hm f key val h l in
      (r, q, g, ground (arith, count))
  call-Holds (remove key) hm f h l =
      let (r, q, g, freed, count) = map_remove-Holds hm f key h in
      (r, rw q refl, g, ground (arith, count))

  calls-Holds :
      (cs : List (Call V)) (hm : Map V) (f : Bytes → Option (Option V))
      → Holds hm f
      → hm.count + length cs ≤ map_max_load max_capacity
      → (r : Map V) × (calls cs hm ≡ some r) × Holds r (effects cs f)
  unfolding calls effects Option.bind
  calls-Holds [] hm f h l = (hm, refl, h)
  calls-Holds (c ∷ cs) hm f h l =
      let (m, q, g, n) = call-Holds c hm f h (omega (arith, l)) in
      let (r, q', g') = calls-Holds cs m (effect c f) g (omega (arith, l, n)) in (r, rw q q', g')

  -- After any calls on a new map, fewer than the largest table has room for, map_get answers the
  -- last value that the key was given and not removed since, and the table has a power of two of
  -- slots, from 64 to 2 ^ 30, of which at most three quarters are taken.
  pub calls-map_get :
      (cs : List (Call V))
      → length cs ≤ map_max_load max_capacity
      → (r : Map V) × (calls cs map_create_str ≡ some r)
        × ((key : Bytes) → map_get r key ≡ some (Option.bind (effects cs (λ k. none) key) (λ v. v)))
        × ((k : ℕ) × (6 ≤ k)
            × (k ≤ 30)
            × (r.capacity ≡ pow_two k)
            × (r.count ≤ pow_two k - pow_two k / 4))
  calls-map_get cs l =
      let (r, q, g) =
        calls-Holds cs map_create_str (λ k. none) map_create_str-Holds (omega (arith, l)) in
      (
        r,
        q,
        λ key. map_get-Holds r (effects cs (λ k. none)) key g,
        (g.bits, g.low, g.high, g.size, g.load),
      )
