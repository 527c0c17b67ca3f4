-- ===== src/Xstr.antt =====
-- xstr.c: strings in a buffer that grows.
-- The buffer is a block of cells, `none` until it is written; the sizes are `size_t`, so their sums
-- are taken modulo 2 ^ 64. A cell holds a byte, and a text that is added is a list of bytes.
pub mod Holds
pub mod Append
pub mod Ends
pub mod Insert
pub mod History
mod Examples
use autark.Prelude.{
  ℕ, zero, suc, ◌+◌, ◌-◌, ◌*◌, ◌%◌, ◌^◌, ◌||◌, Option, none, some, List, [], ◌∷◌, map, length, take,
  replicate, blit, memmove, realloc, Bytes, ltb, ◌==◌, if◌then◌else◌,
}

abbrev pub u64 : ℕ → ℕ
u64 n = n % 2 ^ 64

-- struct xstr
pub record Xstr : Type 0 where
  pub ptr : List (Option ℕ)
  pub size : ℕ
  pub asize : ℕ

-- The text in cells.
abbrev pub cells_of : Bytes → List (Option ℕ)
cells_of s = map some s

unfoldable pub xstr_create : ℕ → Xstr
xstr_create siz =
    let n = if siz == 0 then 16 else siz in
    record { ptr = blit 0 (some 0 ∷ []) (replicate n none); size = 0; asize = n }

-- A round of the loop that widens the buffer.
unfoldable pub widen_once : ℕ → ℕ → ℕ
widen_once asize nsize = let a = u64 (asize * 2) in if ltb a nsize then nsize else a

-- while (xstr->asize < nsize), for at most `fuel` rounds.
unfoldable pub widen : ℕ → ℕ → ℕ → ℕ
widen zero asize nsize = asize
widen (suc fuel) asize nsize =
    let rest = widen fuel (widen_once asize nsize) nsize in if ltb asize nsize then rest else asize

-- The rounds granted to the loop; widen_fits shows that one round is enough.
abbrev pub rounds : ℕ
rounds = 2

-- The buffer made wide enough for `nsize` bytes.
unfoldable pub reserve_size : Xstr → ℕ → Xstr
unfolding realloc
reserve_size xstr nsize =
    let a = widen rounds xstr.asize nsize in
    if ltb xstr.asize nsize then record xstr { asize = a; ptr = realloc a xstr.ptr } else xstr

-- xstr->size = n; xstr->ptr[n] = '\0'
unfoldable pub terminate : ℕ → Xstr → Xstr
terminate n xstr = record xstr { size = n; ptr = blit n (some 0 ∷ []) xstr.ptr }

unfoldable pub xstr_cat2 : Xstr → Bytes → Xstr
unfolding reserve_size terminate
xstr_cat2 xstr buf =
    let x = reserve_size xstr (u64 (xstr.size + length buf + 1)) in
    terminate (x.size + length buf) (record x { ptr = blit x.size (cells_of buf) x.ptr })

unfoldable pub xstr_shift : Xstr → ℕ → Xstr
unfolding terminate
xstr_shift xstr shift_size =
    let k = if ltb xstr.size shift_size then xstr.size else shift_size in
    let p = if ltb k xstr.size then memmove 0 k (xstr.size - k) xstr.ptr else xstr.ptr in
    if shift_size == 0 then xstr else terminate (xstr.size - k) (record xstr { ptr = p })

-- `nsize` is an `unsigned` here.
unfoldable pub xstr_unshift : Xstr → Bytes → Xstr
unfolding reserve_size terminate
xstr_unshift xstr buf =
    let x = reserve_size xstr ((xstr.size + length buf + 1) % 2 ^ 32) in
    let p = if x.size == 0 then x.ptr else memmove (length buf) 0 x.size x.ptr in
    terminate (x.size + length buf) (record x { ptr = blit 0 (cells_of buf) p })

unfoldable pub xstr_pop : Xstr → ℕ → Xstr
unfolding terminate
xstr_pop xstr pop_size =
    let k = if ltb xstr.size pop_size then xstr.size else pop_size in
    if pop_size == 0 then xstr else terminate (xstr.size - k) xstr

-- The final zero is moved with the text behind `pos`.
unfoldable pub xstr_insert : Xstr → ℕ → Bytes → Xstr
unfolding reserve_size
xstr_insert xstr pos buf =
    let size = length buf % 2 ^ 32 in
    let x = reserve_size xstr (u64 (xstr.size + size + 1)) in
    let moved = memmove (pos + size) pos (x.size - pos + 1) x.ptr in
    if ltb xstr.size pos || (size == 0)
    then xstr
    else record x { ptr = blit pos (cells_of (take size buf)) moved; size = x.size + size }

unfoldable pub xstr_clear : Xstr → Xstr
unfolding terminate
xstr_clear xstr = terminate 0 xstr

unfoldable pub xstr_cat_repeat : Xstr → ℕ → ℕ → Xstr
unfolding xstr_cat2
xstr_cat_repeat xstr ch zero = xstr
xstr_cat_repeat xstr ch (suc count) = xstr_cat_repeat (xstr_cat2 xstr (ch ∷ [])) ch count
