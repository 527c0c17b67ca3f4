-- ===== src/Pool/Step.antt =====
-- pool.c: what a call that writes to the memory it gets does to the pool.
use mathlib.Core.Option.{some_inj}
use mathlib.Core.Path.{subst}
use autark.Prelude.{
  ℕ, zero, suc, ◌+◌, ◌^◌, ◌≤◌, ◌<◌, ◌≡◌, refl, sym, ap, ap₂, ◌∙◌, inl, inr, Bool, true, ◌&&◌,
  Option, some, [], ◌∷◌, arith, length, get_elem?, Bytes, ◌==◌, if◌then◌else◌, Bool-cases, eq_self,
}
use autark.Pool.{Place, Pool, write, write_at, pool_alloc, alloc_bytes}
use autark.Pool.Grant.{
  block_size, Used, Inv, Grant, Placed, nowhere, placed, Current, no_block, block, pool_alloc-Grant,
  map-some,
}

write_out :
    (cells : ℕ → ℕ → Option ℕ) (b o : ℕ) (bytes : Bytes) (b' o' : ℕ)
    → ((i : ℕ) → i < length bytes → b' ≡ b → o' ≡ o + i → ⊥)
    → write cells b o bytes b' o' ≡ cells b' o'
unfolding write
write_out cells b o [] b' o' h = refl
write_out cells b o (x ∷ xs) b' o' h =
    write_out (λ b'' o''. if b'' == b && o'' == o then some x else cells b'' o'') b (o + 1) xs b' o'
      (λ i l e f. h (suc i) (omega (arith, l)) e (omega (arith, f)))
    ∙ elim (Bool-cases (b' == b && o' == o)) [
      | inl y ↦ absurd (h 0 (omega arith) (ground arith) (ground arith))
      | inr n ↦ rw n refl
    ]

write_in :
    (cells : ℕ → ℕ → Option ℕ) (b o : ℕ) (bytes : Bytes) (i : ℕ)
    → i < length bytes
    → write cells b o bytes b (o + i) ≡ get_elem? bytes i
unfolding write
write_in cells b o [] i l = absurd (omega (arith, l))
write_in cells b o (x ∷ xs) zero l =
    write_out (λ b'' o''. if b'' == b && o'' == o then some x else cells b'' o'') b (o + 1) xs b
      (o + 0) (λ i l' e f. absurd (omega (arith, f)))
    ∙ rw (eq_self b, add_none o, eq_self o) refl
  where
    add_none : (k : ℕ) → k + 0 ≡ k
    add_none k = omega arith
write_in cells b o (x ∷ xs) (suc i) l =
    ap (write (λ b'' o''. if b'' == b && o'' == o then some x else cells b'' o'') b (o + 1) xs b)
      (shifted o i)
    ∙ write_in (λ b'' o''. if b'' == b && o'' == o then some x else cells b'' o'') b (o + 1) xs i
        (omega (arith, l))
  where
    shifted : (k j : ℕ) → k + suc j ≡ k + 1 + j
    shifted k j = omega arith

-- A call that gets siz bytes and writes `bytes` to them.
pub record Step (p q : Pool) (siz : ℕ) (bytes : Bytes) (h : Place) : Type 0 where
  pub inv : Inv q
  pub used : (b o : ℕ) → Used p b o → Used q b o
  pub more : length p.blocks ≤ length q.blocks
  pub sizes : (b : ℕ) → b < length p.blocks → block_size q.blocks b ≡ block_size p.blocks b
  pub place : Placed p q siz h
  pub kept : (b o : ℕ) → Used p b o → q.cells b o ≡ p.cells b o
  pub written :
      (b o : ℕ)
      → h ≡ some (b, o)
      → (i : ℕ) → i < length bytes
      → q.cells b (o + i) ≡ get_elem? bytes i

quiet-Step :
    (p q : Pool) (siz : ℕ) (bytes : Bytes) (h : Place)
    → length bytes ≡ 0
    → Grant p q siz h
    → Step p q siz bytes h
quiet-Step p q siz bytes h nil g = record {
  inv = g.inv;
  used = g.used;
  more = g.more;
  sizes = g.sizes;
  place = g.place;
  kept = λ b o u. ap (λ c. c b o) g.same_cells;
  written = λ b o e i l. absurd (omega (arith, l, nil));
}

module _ (p r : Pool) (siz : ℕ) (bytes : Bytes) (h : Place) (l : length bytes ≤ siz)
    (g : Grant p r siz h) where
  written-Current : (cells : ℕ → ℕ → Option ℕ) → Current r → Current (record r { cells = cells })
  written-Current cells (no_block a b c) = no_block a b c
  written-Current cells (block b a c d) = block b a c d

  write-Step : Placed p r siz h → Step p (write_at r h bytes) siz bytes h
  unfolding write_at
  write-Step (nowhere e z) =
      let same : write_at r h bytes ≡ r = rw e refl in
      subst (λ q. Step p q siz bytes h) (sym same)
        (quiet-Step p r siz bytes h (omega (arith, z, l)) g)
  write-Step (placed b o e in_block fits m u) =
      let cells = write r.cells b o bytes in
      let same : write_at r h bytes ≡ record r { cells = cells } = rw e refl in
      subst (λ q. Step p q siz bytes h) (sym same)
        (record {
          inv = record {
            current = written-Current cells g.inv.current;
            fits = g.inv.fits;
            bounded = g.inv.bounded;
            aligned = g.inv.aligned;
          };
          used = g.used;
          more = g.more;
          sizes = g.sizes;
          place = placed b o e in_block fits m u;
          kept = λ b' o' v.
              write_out r.cells b o bytes b' o'
                (λ i i_lt eb eo. (u i (omega (arith, i_lt, l))).0 (rw (eb, eo) at v))
              ∙ ap (λ c. c b' o') g.same_cells;
          written = λ b' o' e' i i_lt.
              let both : (b, o) ≡ (b', o') = some_inj.0 (sym e ∙ e') in
              ap₂ (λ x y. cells x (y + i)) (sym (ap (λ z. z.0) both)) (sym (ap (λ z. z.1) both))
              ∙ write_in r.cells b o bytes i i_lt;
        })

module _ (xmalloc : ℕ → Bool) (limit : (n : ℕ) → xmalloc n ≡ true → n < 2 ^ 62) where
  pub pool_alloc-Step :
      (p q : Pool) (siz : ℕ) (h : Place)
      → Inv p
      → siz < 2 ^ 62
      → pool_alloc xmalloc p siz ≡ some (q, h)
      → Step p q siz [] h
  pool_alloc-Step p q siz h i small e =
      quiet-Step p q siz [] h refl (pool_alloc-Grant xmalloc limit p q siz h i small e)

  pub alloc_bytes-Step :
      (p q : Pool) (siz : ℕ) (bytes : Bytes) (h : Place)
      → Inv p
      → siz < 2 ^ 62
      → length bytes ≤ siz
      → alloc_bytes xmalloc p siz bytes ≡ some (q, h)
      → Step p q siz bytes h
  unfolding alloc_bytes
  alloc_bytes-Step p q siz bytes h i small l e =
      let (r, got, same) =
        map-some (pool_alloc xmalloc p siz) (λ x. (write_at x.0 x.1 bytes, x.1)) (q, h) e in
      let g = pool_alloc-Grant xmalloc limit p r.0 siz r.1 i small got in
      subst (λ x. Step p x.0 siz bytes x.1) same (write-Step p r.0 siz bytes r.1 l g g.place)
