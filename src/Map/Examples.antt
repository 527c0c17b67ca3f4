-- ===== src/Map/Examples.antt =====
-- map.c: runs of the map.
use mathlib.Core.Option
use autark.Prelude.{
  ℕ, ◌+◌, ◌-◌, ◌/◌, ◌≤◌, ◌≡◌, refl, sym, ◌∙◌, Option, none, some, List, [], ◌∷◌, arith, length,
  Bytes, codes, str_eq, if◌then◌else◌,
}
use autark.Map.Table.{
  map_hash_buf_key, set_slot, empty_slot, map_nhash, hash_from, bit_xor, bit_and, Map, map_max_load,
  next_slot, map_entry_find, map_entry_put, find_loop, put_loop,
}
use autark.Map.Cycle.{pow_two}
use autark.Map.Refine.{Holds, map_create_str-Holds}
use autark.Map.Refine.Store.{is_some, update, free_old}
use autark.Map.Refine.Put.{map_put_str-Holds}
use autark.Map.Refine.Remove.{map_remove-Holds}
use autark.Map.Refine.History.{Call, put, remove, calls, effects, calls-map_get}
use autark.Map.{
  map_create_str, map_put_str, map_get, map_remove, map_destroy, map_reserve_entry, write_slot,
  map_entry_remove, close_hole, on_path, shrink_table, free_from,
}

some_inj {ℓ} : {A : Type ℓ} {a b : A} → some a ≡ some b → a ≡ b
some_inj q = cc

-- The hash of FNV-1a at one byte.
hash_of_letter : map_hash_buf_key (codes "a") ≡ 3826002220
unfolding map_hash_buf_key hash_from bit_xor
hash_of_letter = refl

abbrev two_puts : Option (Map ℕ)
two_puts =
    Option.bind (map_put_str map_create_str (codes "a") (some 1))
      (λ hm. map_put_str hm (codes "b") (some 2))

found : Option.bind two_puts (λ hm. map_get hm (codes "a")) ≡ some (some 1)
unfolding map_put_str map_get map_reserve_entry map_max_load map_entry_put map_entry_find put_loop
    find_loop write_slot map_nhash map_hash_buf_key hash_from bit_xor bit_and next_slot str_eq
    Option.bind
found = refl

-- The second value of a key frees the first.
replaced :
    Option.map (λ hm. hm.freed) (Option.bind two_puts (λ hm. map_put_str hm (codes "a") (some 3)))
    ≡ some ((codes "a", some 1) ∷ [])
unfolding map_put_str map_get map_reserve_entry map_max_load map_entry_put map_entry_find put_loop
    find_loop write_slot map_nhash map_hash_buf_key hash_from bit_xor bit_and next_slot str_eq
    Option.bind
replaced = refl

gone :
    Option.bind
      (Option.bind two_puts (λ hm. map_remove hm (codes "a")))
      (λ r. map_get r.0 (codes "a"))
    ≡ some none
unfolding map_put_str map_get map_reserve_entry map_max_load map_entry_put map_entry_find put_loop
    find_loop write_slot map_nhash map_hash_buf_key hash_from bit_xor bit_and next_slot str_eq
    Option.bind map_remove map_entry_remove close_hole on_path shrink_table
gone = refl

destroyed : Option.map (λ hm. length (map_destroy hm)) two_puts ≡ some 2
unfolding map_put_str map_get map_reserve_entry map_max_load map_entry_put map_entry_find put_loop
    find_loop write_slot map_nhash map_hash_buf_key hash_from bit_xor bit_and next_slot str_eq
    Option.bind map_destroy free_from
destroyed = refl

abbrev one_put : Map ℕ
one_put = record {
  entries =
      set_slot (set_slot (λ j. empty_slot) 45 (record { key = []; val = none; hash = 3826002221 }))
        45 (record { key = codes "a"; val = some 1; hash = 3826002221 });
  capacity = 64;
  capacity_mask = 63;
  count = 1;
  freed = [];
}

puts_one : map_put_str map_create_str (codes "a") (some 1) ≡ some one_put
unfolding map_put_str map_get map_reserve_entry map_max_load map_entry_put map_entry_find put_loop
    find_loop write_slot map_nhash map_hash_buf_key hash_from bit_xor bit_and next_slot str_eq
    Option.bind
puts_one = refl

-- The map after the put holds the one key.
one_put-Holds : Holds one_put (update (λ k. none) (codes "a") (some (some 1)))
unfolding map_max_load
one_put-Holds =
    let (r, q, g, freed, count) =
      map_put_str-Holds map_create_str (λ k. none) (codes "a") (some 1) map_create_str-Holds
        (omega arith) in
    let e : r ≡ one_put = some_inj (sym q ∙ puts_one) in rw e at g

map_put_str-Holds_example :
    (r : Map ℕ) × (map_put_str one_put (codes "a") (some 2) ≡ some r)
    × Holds r (update (update (λ k. none) (codes "a") (some (some 1))) (codes "a") (some (some 2)))
    × (r.freed
        ≡ free_old
            (codes "a")
            (update (λ k. none) (codes "a") (some (some 1)) (codes "a"))
            one_put.freed)
    × (r.count
        ≡ one_put.count
          + (if is_some (update {V = ℕ} (λ k. none) (codes "a") (some (some 1)) (codes "a"))
              then 0
              else 1))
unfolding map_max_load
map_put_str-Holds_example =
    map_put_str-Holds one_put (update (λ k. none) (codes "a") (some (some 1))) (codes "a") (some 2)
      one_put-Holds (omega arith)

map_remove-Holds_example :
    (r : Map ℕ) × (map_remove one_put (codes "a")
      ≡ some (r, is_some (update {V = ℕ} (λ k. none) (codes "a") (some (some 1)) (codes "a"))))
    × Holds r (update (update (λ k. none) (codes "a") (some (some 1))) (codes "a") none)
    × (r.freed
        ≡ free_old
            (codes "a")
            (update (λ k. none) (codes "a") (some (some 1)) (codes "a"))
            one_put.freed)
    × (r.count
        ≡ one_put.count
          - (if is_some (update {V = ℕ} (λ k. none) (codes "a") (some (some 1)) (codes "a"))
              then 1
              else 0))
map_remove-Holds_example =
    map_remove-Holds one_put (update (λ k. none) (codes "a") (some (some 1))) (codes "a")
      one_put-Holds

abbrev some_calls : List (Call ℕ)
some_calls =
    put (codes "a") (some 1)
    ∷ put (codes "b") none
    ∷ remove (codes "a")
    ∷ put (codes "b") (some 2)
    ∷ []

calls-map_get_example :
    (r : Map ℕ) × (calls some_calls map_create_str ≡ some r)
    × ((key : Bytes)
        → map_get r key ≡ some (Option.bind (effects some_calls (λ k. none) key) (λ v. v)))
    × ((k : ℕ) × (6 ≤ k)
        × (k ≤ 30)
        × (r.capacity ≡ pow_two k)
        × (r.count ≤ pow_two k - pow_two k / 4))
unfolding map_max_load
calls-map_get_example = calls-map_get some_calls (omega arith)
