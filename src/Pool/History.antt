-- ===== src/Pool/History.antt =====
-- pool.c: any sequence of calls on a pool.
use mathlib.Core.Option
use mathlib.Core.Path.{subst}
use mathlib.Core.Option.{some_inj}
use autark.Prelude.{
  ℕ, zero, suc, ◌+◌, ◌%◌, ◌^◌, ◌≤◌, ◌<◌, ◌≡◌, refl, sym, ap, ◌∙◌, ◌⊎◌, inl, inr, Bool, true, Option,
  none, some, List, [], ◌∷◌, ◌++◌, arith, length, get_elem?, take, replicate, length-append,
  length-replicate, Bytes, All,
}
use autark.Utils.Text.{strnlen}
use autark.Pool.{
  Place, Pool, pool_create_empty, pool_create_preallocated, pool_alloc, pool_calloc, pool_strdup,
  pool_strndup,
}
use autark.Pool.Grant.{block_size, Used, Inv, Placed, nowhere, placed, empty-Inv, preallocated-Inv}
use autark.Pool.Step.{Step, pool_alloc-Step, alloc_bytes-Step}

-- The calls that get memory.
pub data Call : Type 0 where
  alloc : ℕ → Call
  calloc : ℕ → Call
  strdup : Option Bytes → Call
  strndup : Option Bytes → ℕ → Call

unfoldable pub size_of : Call → ℕ
size_of (alloc n) = n
size_of (calloc n) = n
size_of (strdup none) = 0
size_of (strdup (some s)) = length s + 1
size_of (strndup none n) = 0
size_of (strndup (some s) n) = strnlen s n + 1

-- What the call itself writes to the memory that it returns.
unfoldable pub bytes_of : Call → Bytes
bytes_of (alloc n) = []
bytes_of (calloc n) = replicate n 0
bytes_of (strdup none) = []
bytes_of (strdup (some s)) = s ++ 0 ∷ []
bytes_of (strndup none n) = []
bytes_of (strndup (some s) n) = take (strnlen s n) s ++ 0 ∷ []

-- What has been handed out.
pub record Handed : Type 0 where
  pub place : Place
  pub size : ℕ
  pub bytes : Bytes

length-take_le : (n : ℕ) (s : Bytes) → length (take n s) ≤ n
length-take_le zero s = omega arith
length-take_le (suc n) [] = omega arith
length-take_le (suc n) (x ∷ s) = omega (arith, length-take_le n s)

bytes_fit : (c : Call) → length (bytes_of c) ≤ size_of c
unfolding bytes_of size_of
bytes_fit (alloc n) = omega arith
bytes_fit (calloc n) = omega (arith, length-replicate {A = ℕ} n 0)
bytes_fit (strdup none) = omega arith
bytes_fit (strdup (some s)) = omega (arith, length-append s (0 ∷ []))
bytes_fit (strndup none n) = omega arith
bytes_fit (strndup (some s) n) =
    omega (arith, length-append (take (strnlen s n) s) (0 ∷ []), length-take_le (strnlen s n) s)

-- The memory of what was handed out lies in one block and in use, starts at a multiple of 8 bytes,
-- and holds what was written to it.
pub data Kept (p : Pool) (h : Handed) : Type 0 where
  none_kept : h.place ≡ none → h.size ≡ 0 → Kept p h
  kept :
      (b o : ℕ)
      → h.place ≡ some (b, o)
      → b < length p.blocks
      → o + h.size ≤ block_size p.blocks b
      → o % 8 ≡ 0
      → length h.bytes ≤ h.size
      → ((i : ℕ) → i < h.size → Used p b (o + i))
      → ((i : ℕ) → i < length h.bytes → p.cells b (o + i) ≡ get_elem? h.bytes i)
      → Kept p h

-- No byte belongs to both.
pub Apart : Handed → Handed → Type 0
Apart g h =
    (b o o' i j : ℕ)
    → g.place ≡ some (b, o)
    → h.place ≡ some (b, o')
    → i < g.size
    → j < h.size
    → o + i ≡ o' + j
    → ⊥

abbrev pub Separate : List Handed → Type 0
Separate [] = Unit
Separate (h ∷ hs) = All (Apart h) hs × Separate hs

-- Two places that are the same.
place_same : {b b' o o' : ℕ} {h : Place} → h ≡ some (b, o) → h ≡ some (b', o') → (b ≡ b') × (o ≡ o')
place_same e e' = let both = some_inj.0 (sym e ∙ e') in (ap (λ z. z.0) both, ap (λ z. z.1) both)

not_null : {b o : ℕ} {h : Place} → h ≡ none → h ≡ some (b, o) → ⊥
not_null e e' = cc (e, e')

module _ (p q : Pool) (siz : ℕ) (bytes : Bytes) (h : Place) (s : Step p q siz bytes h) where
  Kept-Step : (g : Handed) → Kept p g → Kept q g
  Kept-Step g (none_kept e z) = none_kept e z
  Kept-Step g (kept b o e l f m le u w) =
      kept b o e (omega (arith, l, s.more)) (omega (arith, f, s.sizes b l)) m le
        (λ i x. s.used b (o + i) (u i x))
        (λ i x. s.kept b (o + i) (u i (omega (arith, x, le))) ∙ w i x)

  new-Kept :
      length bytes ≤ siz
      → Placed p q siz h
      → Kept q (record { place = h; size = siz; bytes = bytes })
  new-Kept le (nowhere e z) = none_kept e z
  new-Kept le (placed b o e l f m u) =
      kept b o e l f m le (λ i x. (u i x).1) (λ i x. s.written b o e i x)

  new-Apart :
      (g : Handed)
      → Placed p q siz h
      → Kept p g
      → Apart (record { place = h; size = siz; bytes = bytes }) g
  unfolding Apart
  new-Apart g (nowhere e z) k b o o' i j a a' x y same = absurd (not_null e a)
  new-Apart g (placed c d e l f m u) (none_kept e' z) b o o' i j a a' x y same =
      absurd (not_null e' a')
  new-Apart g (placed c d e l f m u) (kept c' d' e' l' f' m' le u' w) b o o' i j a a' x y same =
      let here = place_same e a in
      let there = place_same e' a' in
      (u i x).0 (moved p (there.0 ∙ sym here.0) (omega (arith, same, here.1, there.1)) (u' j y))
    where
      moved : (r : Pool) {b b' o o' : ℕ} → b ≡ b' → o ≡ o' → Used r b o → Used r b' o'
      moved r eb eo v = rw (sym eb, sym eo) v

bind-some {ℓ} :
    {A B : Type ℓ} (m : Option A) (f : A → Option B) (b : B)
    → Option.bind m f ≡ some b
    → (a : A) × (m ≡ some a) × (f a ≡ some b)
unfolding Option.bind
bind-some none f b h = absurd (cc h)
bind-some (some a) f b h = (a, refl, h)

module _ (xmalloc : ℕ → Bool) where
  unfoldable pub call : Pool → Call → Option (Pool × Place)
  call p (alloc n) = pool_alloc xmalloc p n
  call p (calloc n) = pool_calloc xmalloc p n
  call p (strdup s) = pool_strdup xmalloc p s
  call p (strndup s n) = pool_strndup xmalloc p s n

  -- The calls one after the other; what has been handed out, the latest first.
  unfoldable pub calls : List Call → Pool → List Handed → Option (Pool × List Handed)
  unfolding call
  calls [] p hs = some (p, hs)
  calls (c ∷ cs) p hs =
      Option.bind (call p c)
        (λ r. calls cs r.0 (record { place = r.1; size = size_of c; bytes = bytes_of c } ∷ hs))

  module _ (limit : (n : ℕ) → xmalloc n ≡ true → n < 2 ^ 62) where
    null_Step :
        (p q : Pool) (h : Place)
        → Inv p
        → ◌≡◌ {A = Option (Pool × Place)} (some (p, none)) (some (q, h))
        → Step p q 0 [] h
    null_Step p q h i e =
        subst (λ x. Step p x.0 0 [] x.1) (some_inj.0 e)
          (record {
            inv = i;
            used = λ b o u. u;
            more = omega arith;
            sizes = λ b l. refl;
            place = nowhere refl refl;
            kept = λ b o u. refl;
            written = λ b o e' j l. absurd (omega (arith, l));
          })

    call-Step :
        (p q : Pool) (c : Call) (h : Place)
        → Inv p
        → size_of c < 2 ^ 62
        → call p c ≡ some (q, h)
        → Step p q (size_of c) (bytes_of c) h
    unfolding call size_of bytes_of pool_calloc pool_strdup pool_strndup
    call-Step p q (alloc n) h i l e = pool_alloc-Step xmalloc limit p q n h i l e
    call-Step p q (calloc n) h i l e =
        alloc_bytes-Step xmalloc limit p q n (replicate n 0) h i l (bytes_fit (calloc n)) e
    call-Step p q (strdup none) h i l e = null_Step p q h i e
    call-Step p q (strdup (some s)) h i l e =
        alloc_bytes-Step xmalloc limit p q (length s + 1) (s ++ 0 ∷ []) h i l
          (bytes_fit (strdup (some s))) e
    call-Step p q (strndup none n) h i l e = null_Step p q h i e
    call-Step p q (strndup (some s) n) h i l e =
        alloc_bytes-Step xmalloc limit p q (strnlen s n + 1) (take (strnlen s n) s ++ 0 ∷ []) h i l
          (bytes_fit (strndup (some s) n)) e

    All-Kept :
        (p q : Pool) (siz : ℕ) (bytes : Bytes) (h : Place)
        → Step p q siz bytes h
        → (hs : List Handed) → All (Kept p) hs
        → All (Kept q) hs
    All-Kept p q siz bytes h s [] k = k
    All-Kept p q siz bytes h s (g ∷ gs) k =
        (Kept-Step p q siz bytes h s g k.0, All-Kept p q siz bytes h s gs k.1)

    All-Apart :
        (p q : Pool) (siz : ℕ) (bytes : Bytes) (h : Place)
        → Step p q siz bytes h
        → (hs : List Handed) → All (Kept p) hs
        → All (Apart (record { place = h; size = siz; bytes = bytes })) hs
    All-Apart p q siz bytes h s [] k = tt
    All-Apart p q siz bytes h s (g ∷ gs) k =
        (new-Apart p q siz bytes h s g s.place k.0, All-Apart p q siz bytes h s gs k.1)

    calls_lem :
        (cs : List Call) (p q : Pool) (hs gs : List Handed)
        → All (λ c. size_of c < 2 ^ 62) cs
        → Inv p
        → All (Kept p) hs
        → Separate hs
        → calls cs p hs ≡ some (q, gs)
        → All (Kept q) gs × Separate gs
    unfolding calls
    calls_lem [] p q hs gs small i k a e =
        subst (λ r. All (Kept r.0) r.1 × Separate r.1) (some_inj.0 e) (k, a)
    calls_lem (c ∷ cs) p q hs gs small i k a e =
        let (r, got, e') =
          bind-some (call p c)
            (λ r. calls cs r.0 (record { place = r.1; size = size_of c; bytes = bytes_of c } ∷ hs))
            (q, gs) e in
        let s = call-Step p r.0 c r.1 i small.0 got in
        calls_lem cs r.0 q (record { place = r.1; size = size_of c; bytes = bytes_of c } ∷ hs) gs
          small.1 s.inv
          (
            new-Kept p r.0 (size_of c) (bytes_of c) r.1 s (bytes_fit c) s.place,
            All-Kept p r.0 (size_of c) (bytes_of c) r.1 s hs k,
          )
          (All-Apart p r.0 (size_of c) (bytes_of c) r.1 s hs k, a) e'

    -- When no block can have 2 ^ 62 bytes and no request asks for as many, whatever a sequence of
    -- calls on an empty pool, or on one with a first block, hands out lies inside one block and in
    -- use, starts at a multiple of 8 bytes, still holds the bytes that its call has written, and
    -- has no byte in common with anything else that has been handed out.
    pub calls_apart :
        (cs : List Call) (start p : Pool) (hs : List Handed)
        → (start ≡ pool_create_empty)
          ⊎ ((sz : ℕ) × (pool_create_preallocated xmalloc sz ≡ some start))
        → All (λ c. size_of c < 2 ^ 62) cs
        → calls cs start [] ≡ some (p, hs)
        → All (Kept p) hs × Separate hs
    calls_apart cs start p hs begins small e =
        calls_lem cs start p [] hs small
          (elim begins [
            | inl q ↦ rw q empty-Inv
            | inr q ↦ preallocated-Inv xmalloc limit q.0 start q.1
          ])
          tt tt e
