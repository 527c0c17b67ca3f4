-- ===== src/Products/Examples.antt =====
-- script.c: the products of two nodes, and the theorem at them.
use mathlib.Core.Option
use autark.Prelude.{
  ℕ, ◌≡◌, refl, ◌⊎◌, false, Option, none, some, List, [], ◌∷◌, ◌++◌, arith, encode, Bytes, codes,
  str_eq, ◌==◌,
}
use autark.Map.Table.{
  Map, map_max_load, map_entry_put, map_entry_find, put_loop, find_loop, map_nhash,
  map_hash_buf_key, hash_from, bit_xor, bit_and, next_slot,
}
use autark.Map.{map_create_str, map_put_str, map_get, map_reserve_entry, write_slot}
use autark.Products.{
  Added, added, taken, failed, node_product_add_raw, node_by_product_raw, node_by_product,
  node_product_add,
}
use autark.Products.Owners.{Claim, add_all, Adds, products_owned}
use autark.Utils.Vlist.{is_vlist, vlist_items}
use autark.Paths.{
  path_normalize_cwd, path_absolutize, normalize_buf, normalize_split, segments_loop,
  path_of_segments,
}
use autark.Utils.Text.{strnncpy}

abbrev added_to : Added → (Map ℕ → Option (Option ℕ)) → Option (Option ℕ)
added_to (added products) f = f products
added_to (taken n) f = none
added_to failed f = none

abbrev object : Bytes
object = codes "/p/a.o"

abbrev two_makers : List Claim
two_makers =
    record { node = 3; product = object }
    ∷ record { node = 3; product = object }
    ∷ record { node = 5; product = object }
    ∷ []

-- The second rule for a product is an error, which names the first.
second_refused : add_all two_makers map_create_str ≡ taken 3
unfolding add_all node_product_add_raw map_put_str map_get map_reserve_entry map_max_load
    map_entry_put map_entry_find put_loop find_loop write_slot map_nhash map_hash_buf_key hash_from
    bit_xor bit_and next_slot str_eq Option.bind
second_refused = refl

products_owned_example :
    ((r : Map ℕ) × (add_all two_makers map_create_str ≡ added r)
      × ((n : ℕ) (p : Bytes) → Adds n p two_makers → node_by_product_raw r p ≡ some (some n)))
    ⊎ ((k n : ℕ) × (p : Bytes) × (add_all two_makers map_create_str ≡ taken k)
        × Adds k p two_makers
        × Adds n p two_makers
        × (n == k ≡ false))
unfolding map_max_load
products_owned_example = products_owned two_makers (omega arith)

-- The items of a value are products of one node, by their paths from the working directory.
items_added :
    added_to
      (node_product_add (codes "/p") map_create_str 3 (1 ∷ codes "a.o" ++ 1 ∷ codes "b.o"))
      (λ products. node_by_product (codes "/p") products (codes "./b.o"))
    ≡ some (some 3)
unfolding node_product_add node_product_add_raw map_put_str map_get map_reserve_entry map_max_load
    map_entry_put map_entry_find put_loop find_loop write_slot map_nhash map_hash_buf_key hash_from
    bit_xor bit_and next_slot str_eq Option.bind is_vlist vlist_items path_normalize_cwd
    path_absolutize strnncpy normalize_buf normalize_split segments_loop path_of_segments encode
    node_by_product
items_added = refl
