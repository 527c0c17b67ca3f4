-- ===== src/Pool.antt =====
-- pool.c, pool.h: memory that is handed out from blocks in order and freed as a whole.
pub mod Grant
pub mod Step
pub mod History
mod Examples
use mathlib.Core.Option
use autark.Prelude.{
  ℕ, ◌+◌, ◌*◌, ◌/◌, Bool, ◌&&◌, Option, none, some, List, [], ◌∷◌, ◌++◌, map, length, take,
  replicate, Bytes, ltb, ◌==◌, if◌then◌else◌,
}
use autark.Utils.Text.{strnlen}
use autark.Xstr.{u64}

-- A place in a block, by the number of the block and the bytes in front; NULL is `none`.
abbrev pub Place : Type 0
Place = Option (ℕ × ℕ)

-- struct pool: `blocks` are the sizes of the blocks that the list `unit` leads to, the newest
-- first, and `cells` what is known of the memory in the blocks.
pub record Pool : Type 0 where
  pub usiz : ℕ
  pub asiz : ℕ
  pub blocks : List ℕ
  pub heap : Place
  pub cells : ℕ → ℕ → Option ℕ

abbrev pub pool_create_empty : Pool
pool_create_empty = record { usiz = 0; asiz = 0; blocks = []; heap = none; cells = λ b o. none }

-- ROUNDUP(siz, 8)
abbrev pub round_up : ℕ → ℕ
round_up n = u64 (n + 7) / 8 * 8

-- A pointer to bytes further behind.
abbrev pub further : Place → ℕ → Place
further none n = none
further (some p) n = some (p.0, p.1 + n)

-- The use of the current block.
unfoldable pub take_bytes : Pool → ℕ → Pool × Place
take_bytes pool siz =
    (record pool { usiz = u64 (pool.usiz + siz); heap = further pool.heap siz }, pool.heap)

-- memcpy and memset into a place.
unfoldable pub write : (ℕ → ℕ → Option ℕ) → ℕ → ℕ → Bytes → ℕ → ℕ → Option ℕ
write cells b o [] = cells
write cells b o (x ∷ xs) =
    write (λ b' o'. if b' == b && o' == o then some x else cells b' o') b (o + 1) xs

unfoldable pub write_at : Pool → Place → Bytes → Pool
write_at pool none bytes = pool
write_at pool (some p) bytes = record pool { cells = write pool.cells p.0 p.1 bytes }

-- `xmalloc n` says whether n bytes can be had; the program ends where they cannot.
module _ (xmalloc : ℕ → Bool) where
  -- _extend
  unfoldable pub extend : Pool → ℕ → Option Pool
  extend pool siz =
      let n = round_up siz in
      if xmalloc n
      then some (record pool {
        usiz = 0;
        asiz = n;
        blocks = n ∷ pool.blocks;
        heap = some (length pool.blocks, 0);
      })
      else none

  unfoldable pub pool_create_preallocated : ℕ → Option Pool
  unfolding extend
  pool_create_preallocated sz = extend pool_create_empty sz

  unfoldable pub pool_alloc : Pool → ℕ → Option (Pool × Place)
  pool_alloc pool siz =
      let n = round_up siz in
      let usiz = u64 (pool.usiz + n) in
      if ltb pool.asiz usiz
      then Option.map (λ p. take_bytes p n) (extend pool (u64 (usiz + pool.asiz)))
      else some (take_bytes pool n)

  -- A call of pool_alloc, and the bytes that are written to what it returns.
  unfoldable pub alloc_bytes : Pool → ℕ → Bytes → Option (Pool × Place)
  alloc_bytes pool siz bytes = Option.map (λ r. (write_at r.0 r.1 bytes, r.1)) (pool_alloc pool siz)

  unfoldable pub pool_calloc : Pool → ℕ → Option (Pool × Place)
  pool_calloc pool siz = alloc_bytes pool siz (replicate siz 0)

  unfoldable pub pool_strdup : Pool → Option Bytes → Option (Pool × Place)
  pool_strdup pool none = some (pool, none)
  pool_strdup pool (some str) = alloc_bytes pool (length str + 1) (str ++ 0 ∷ [])

  unfoldable pub pool_strndup : Pool → Option Bytes → ℕ → Option (Pool × Place)
  pool_strndup pool none len = some (pool, none)
  pool_strndup pool (some str) len =
      let n = strnlen str len in alloc_bytes pool (n + 1) (take n str ++ 0 ∷ [])
