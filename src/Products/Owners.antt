-- ===== src/Products/Owners.antt =====
-- script.c: each product has one owner, and a second one is an error.
use mathlib.Core.Option
use mathlib.Core.Option.{some_inj}
use mathlib.Core.Path.{subst}
use autark.Prelude.{
  ℕ, ◌+◌, ◌≤◌, ◌≡◌, refl, sym, ap, ◌∙◌, ◌⊎◌, inl, inr, false, Option, none, some, List, [], ◌∷◌,
  arith, length, Bytes, str_eq, str_eq_refl, str_eq_iff, ◌==◌, ==_iff, Bool-cases, Option-cases,
}
use autark.Map.Table.{Map, max_capacity, map_max_load}
use autark.Map.{map_create_str, map_put_str, map_get}
use autark.Map.Refine.{Holds, map_create_str-Holds, map_get-Holds}
use autark.Map.Refine.Store.{update}
use autark.Map.Refine.Put.{map_put_str-Holds}
use autark.Products.{
  Added, added, taken, and_then, put_result, settle, node_product_add_raw, node_by_product_raw,
}

-- A node and a product that it adds.
pub record Claim : Type 0 where
  pub node : ℕ
  pub product : Bytes

unfoldable pub add_all : List Claim → Map ℕ → Added
unfolding node_product_add_raw
add_all [] products = added products
add_all (c ∷ cs) products = and_then (node_product_add_raw products c.node c.product) (add_all cs)

-- Node n adds the product p.
abbrev pub Adds : ℕ → Bytes → List Claim → Type 0
Adds n p [] = ⊥
Adds n p (c ∷ cs) = ((n ≡ c.node) × (p ≡ c.product)) ⊎ Adds n p cs

abbrev Owners : Type 0
Owners = Bytes → Option (Option ℕ)

abbrev Full : Owners → Type 0
Full f = (p : Bytes) → f p ≡ some none → ⊥

-- One call: the product gets its owner, has it already, or is taken.
data OneAdded (f : Owners) (n : ℕ) (p : Bytes) (m : Map ℕ) (o : Added) : Type 0 where
  new_owner :
      (r : Map ℕ)
      → o ≡ added r
      → f p ≡ none
      → Holds r (update f p (some (some n)))
      → r.count ≤ m.count + 1
      → OneAdded f n p m o
  same_owner : o ≡ added m → f p ≡ some (some n) → OneAdded f n p m o
  other_owner : (k : ℕ) → o ≡ taken k → f p ≡ some (some k) → n == k ≡ false → OneAdded f n p m o

add_raw-OneAdded :
    (m : Map ℕ) (f : Owners) (n : ℕ) (p : Bytes)
    → Holds m f
    → Full f
    → m.count + 1 ≤ map_max_load max_capacity
    → OneAdded f n p m (node_product_add_raw m n p)
unfolding node_product_add_raw Option.bind
add_raw-OneAdded m f n p h full l = elim (Option-cases (f p)) [
  | inl absent ↦
      let e : map_get m p ≡ some none = rw absent at (map_get-Holds m f p h) in
      let (r, q, g, freed, count) = map_put_str-Holds m f p (some n) h l in
      new_owner r (ap (settle m n (put_result (map_put_str m p (some n)))) e ∙ ap put_result q)
        absent g (ground (arith, count))
  | inr (v, q) ↦ owned v q
]
  where
    owned : (v : Option ℕ) → f p ≡ some v → OneAdded f n p m (node_product_add_raw m n p)
    owned none q = absurd (full p q)
    owned (some k) q =
        let e : map_get m p ≡ some (some k) = rw q at (map_get-Holds m f p h) in
        elim (Bool-cases (k == n)) [
          | inl y ↦
              same_owner (ap (settle m n (put_result (map_put_str m p (some n)))) e ∙ rw y refl)
                (q ∙ ap (λ z. some (some z)) ((==_iff k n).0 y))
          | inr o ↦
              other_owner k (ap (settle m n (put_result (map_put_str m p (some n)))) e ∙ rw o refl)
                q (ground arith)
        ]

data AllAdded (f : Owners) (cs : List Claim) (o : Added) : Type 0 where
  all_owned :
      (r : Map ℕ) (g : Owners)
      → o ≡ added r
      → Holds r g
      → ((p : Bytes) (v : Option ℕ) → f p ≡ some v → g p ≡ some v)
      → ((n : ℕ) (p : Bytes) → Adds n p cs → g p ≡ some (some n))
      → AllAdded f cs o
  clash :
      (k n : ℕ) (p : Bytes)
      → o ≡ taken k
      → Adds n p cs
      → n == k ≡ false
      → (f p ≡ some (some k)) ⊎ Adds k p cs
      → AllAdded f cs o

-- The owners after a call that leaves those before as they are.
add_behind :
    (f f' : Owners) (c : Claim) (cs : List Claim) (o : Added)
    → ((p : Bytes) (v : Option ℕ) → f p ≡ some v → f' p ≡ some v)
    → f' c.product ≡ some (some c.node)
    → ((p : Bytes) (k : ℕ) → f' p ≡ some (some k) → (f p ≡ some (some k)) ⊎ Adds k p (c ∷ []))
    → AllAdded f' cs o
    → AllAdded f (c ∷ cs) o
add_behind f f' c cs o keeps owns back (all_owned r g q h k all) =
    all_owned r g q h (λ p v e. k p v (keeps p v e))
      (λ n p a. elim a [
        | inl here ↦
            ap g here.1 ∙ k c.product (some c.node) owns ∙ ap (λ z. some (some z)) (sym here.0)
        | inr x ↦ all n p x
      ])
add_behind f f' c cs o keeps owns back (clash k n p q a ne e) = clash k n p q (inr a) ne (elim e [
  | inr x ↦ inr (inr x)
  | inl y ↦ elim (back p k y) [
    | inl z ↦ inl z
    | inr w ↦ elim w [ inl u ↦ inr (inl u) | inr z ↦ absurd z ]
  ]
])

update_keeps :
    (f : Owners) (p : Bytes) (o : Option (Option ℕ))
    → f p ≡ none
    → (q : Bytes) (v : Option ℕ) → f q ≡ some v
    → update f p o q ≡ some v
update_keeps f p o absent q v e = elim (Bool-cases (str_eq q p)) [
  | inl y ↦
      let e' : f p ≡ some v = ap f (sym ((str_eq_iff q p).0 y)) ∙ e in absurd (cc (absent, e'))
  | inr d ↦ rw d e
]

update_back :
    (f : Owners) (c : Claim) (q : Bytes) (k : ℕ)
    → update f c.product (some (some c.node)) q ≡ some (some k)
    → (f q ≡ some (some k)) ⊎ Adds k q (c ∷ [])
update_back f c q k e = elim (Bool-cases (str_eq q c.product)) [
  | inl y ↦
      let e' : some (some c.node) ≡ some (some k) = rw y at e in
      inr (inl (sym (some_inj.0 (some_inj.0 e')), (str_eq_iff q c.product).0 y))
  | inr d ↦ inl (rw d at e)
]

update-Full : (f : Owners) (p : Bytes) (n : ℕ) → Full f → Full (update f p (some (some n)))
update-Full f p n full q e = elim (Bool-cases (str_eq q p)) [
  | inl y ↦ (let e' : some (some n) ≡ some none = rw y at e in cc e')
  | inr d ↦ full q (rw d at e)
]

one_then-AllAdded :
    (c : Claim) (cs : List Claim) (m : Map ℕ) (f : Owners) (o : Added)
    → Holds m f
    → Full f
    → ((r : Map ℕ) (g : Owners)
        → Holds r g
        → Full g
        → r.count ≤ m.count + 1
        → AllAdded g cs (add_all cs r))
    → OneAdded f c.node c.product m o
    → AllAdded f (c ∷ cs) (and_then o (add_all cs))
one_then-AllAdded c cs m f o h full rest (new_owner r q absent g count) =
    let f' = update f c.product (some (some c.node)) in
    subst (λ x. AllAdded f (c ∷ cs) (and_then x (add_all cs))) (sym q)
      (add_behind f f' c cs (add_all cs r) (update_keeps f c.product (some (some c.node)) absent)
        (rw (str_eq_refl c.product) refl) (update_back f c)
        (rest r f' g (update-Full f c.product c.node full) count))
one_then-AllAdded c cs m f o h full rest (same_owner q e) =
    subst (λ x. AllAdded f (c ∷ cs) (and_then x (add_all cs))) (sym q)
      (add_behind f f c cs (add_all cs m) (λ p v x. x) e (λ p k x. inl x)
        (rest m f h full (omega arith)))
one_then-AllAdded c cs m f o h full rest (other_owner k q e ne) =
    subst (λ x. AllAdded f (c ∷ cs) (and_then x (add_all cs))) (sym q)
      (clash k c.node c.product refl (inl (refl, refl)) ne (inl e))

add_all-AllAdded :
    (cs : List Claim) (m : Map ℕ) (f : Owners)
    → Holds m f
    → Full f
    → m.count + length cs ≤ map_max_load max_capacity
    → AllAdded f cs (add_all cs m)
unfolding add_all
add_all-AllAdded [] m f h full l = all_owned m f refl h (λ p v e. e) (λ n p a. absurd a)
add_all-AllAdded (c ∷ cs) m f h full l =
    one_then-AllAdded c cs m f (node_product_add_raw m c.node c.product) h full
      (λ r g h' full' count. add_all-AllAdded cs r g h' full' (omega (arith, l, count)))
      (add_raw-OneAdded m f c.node c.product h full (omega (arith, l)))

-- Nodes add products, fewer than the largest map has room for, to a new script. Either each
-- product is then found to be of every node that adds it, so that no two nodes add the same one; or
-- the program ends at a product that two different nodes add, with the name of one of them.
pub products_owned :
    (cs : List Claim)
    → length cs ≤ map_max_load max_capacity
    → ((r : Map ℕ) × (add_all cs map_create_str ≡ added r)
        × ((n : ℕ) (p : Bytes) → Adds n p cs → node_by_product_raw r p ≡ some (some n)))
      ⊎ ((k n : ℕ) × (p : Bytes) × (add_all cs map_create_str ≡ taken k)
          × Adds k p cs
          × Adds n p cs
          × (n == k ≡ false))
unfolding node_by_product_raw Option.bind
products_owned cs l = answer (
    add_all-AllAdded cs map_create_str (λ p. none) map_create_str-Holds (λ p e. absurd (cc e))
      (omega (arith, l)))
  where
    answer :
        AllAdded (λ p. none) cs (add_all cs map_create_str)
        → ((r : Map ℕ) × (add_all cs map_create_str ≡ added r)
            × ((n : ℕ) (p : Bytes) → Adds n p cs → node_by_product_raw r p ≡ some (some n)))
          ⊎ ((k n : ℕ) × (p : Bytes) × (add_all cs map_create_str ≡ taken k)
              × Adds k p cs
              × Adds n p cs
              × (n == k ≡ false))
    answer (all_owned r g q h k all) =
        inl (
          r,
          q,
          λ n p a. map_get-Holds r g p h ∙ ap (λ z. some (Option.bind z (λ v. v))) (all n p a),
        )
    answer (clash k n p q a ne e) = elim e [
      | inl y ↦ absurd (cc y)
      | inr b ↦ inr (k, n, p, q, b, a, ne)
    ]
