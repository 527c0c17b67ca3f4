-- ===== src/Products.antt =====
-- script.c: the products of nodes, files that a rule makes, each by one node.
pub mod Owners
mod Examples
use mathlib.Core.Option
use autark.Prelude.{ℕ, Option, none, some, List, [], ◌∷◌, length, Bytes, ◌==◌, if◌then◌else◌}
use autark.Utils.Text.{strnncpy}
use autark.Utils.Vlist.{is_vlist, vlist_items}
use autark.Paths.{path_max, path_normalize_cwd}
use autark.Map.Table.{Map}
use autark.Map.{map_put_str, map_get}

-- The map `products` of a script after a call; or the end of the program, for a product that
-- another node has, or by a call of the program's own functions.
pub data Added : Type 0 where
  added : Map ℕ → Added
  taken : ℕ → Added
  failed : Added

abbrev pub and_then : Added → (Map ℕ → Added) → Added
and_then (added products) f = f products
and_then (taken other) f = taken other
and_then failed f = failed

abbrev pub put_result : Option (Map ℕ) → Added
put_result none = failed
put_result (some products) = added products

-- What follows from what map_get finds for the product.
abbrev pub settle : Map ℕ → ℕ → Added → Option (Option ℕ) → Added
settle products n put none = failed
settle products n put (some none) = put
settle products n put (some (some nn)) = if nn == n then added products else taken nn

-- node_product_add_raw, for the node n
unfoldable pub node_product_add_raw : Map ℕ → ℕ → Bytes → Added
node_product_add_raw products n prod =
    settle products n (put_result (map_put_str products prod (some n))) (map_get products prod)

unfoldable pub node_by_product_raw : Map ℕ → Bytes → Option (Option ℕ)
node_by_product_raw products prod = map_get products prod

-- A product by its path from the working directory.
unfoldable pub add_normal : Bytes → ℕ → Bytes → Map ℕ → Added
unfolding node_product_add_raw
add_normal cwd n prod products = elim (path_normalize_cwd prod cwd) [
  | none ↦ failed
  | some path ↦ node_product_add_raw products n path
]

-- The loop over the items of a value.
unfoldable pub add_each : Bytes → ℕ → List Bytes → Map ℕ → Added
unfolding add_normal
add_each cwd n [] products = added products
add_each cwd n (item ∷ items) products =
    and_then (add_normal cwd n (strnncpy [] item (length item) path_max) products)
      (add_each cwd n items)

unfoldable pub node_product_add : Bytes → Map ℕ → ℕ → Bytes → Added
unfolding add_each add_normal
node_product_add cwd products n prod =
    if is_vlist prod
    then elim (vlist_items prod) [ none ↦ failed | some items ↦ add_each cwd n items products ]
    else add_normal cwd n prod products

unfoldable pub node_by_product : Bytes → Map ℕ → Bytes → Option (Option ℕ)
node_by_product cwd products prod =
    Option.bind (path_normalize_cwd prod cwd) (λ path. map_get products path)
