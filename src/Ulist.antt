-- ===== src/Ulist.antt =====
-- ulist.c: an array list with a free gap in front of its first unit.
-- A unit is a value of `A`, and a cell of the block is `none` until it is written. The fields are
-- C `unsigned`, so their sums are taken modulo 2 ^ 32; offsets into the block are `size_t`, which
-- such sums cannot overflow.
pub mod Holds
pub mod Grow
pub mod Cut
pub mod Refine
pub mod Remove
pub mod Unshift
pub mod Access
pub mod Search
pub mod Fresh
pub mod History
mod Examples
use autark.Prelude.{
  ℕ, zero, suc, ◌+◌, ◌-◌, ◌*◌, ◌%◌, ◌^◌, Bool, true, false, ◌&&◌, Option, none, some, List, [], ◌∷◌,
  length, get_elem?, replicate, slice, blit, memmove, realloc, ltb, leb, ◌==◌, if◌then◌else◌,
}

abbrev pub u32 : ℕ → ℕ
u32 n = n % 2 ^ 32

-- _ALLOC_UNIT
abbrev pub alloc_unit : ℕ
alloc_unit = 32

-- struct ulist; the length of a unit, `usize`, is in the type of the units.
pub record Ulist {ℓ} (A : Type ℓ) : Type ℓ where
  pub array : List (Option A)
  pub start : ℕ
  pub num : ℕ
  pub anum : ℕ

module _ {ℓ} {A : Type ℓ} where
  unfoldable pub init : ℕ → Ulist A
  init ini_length =
      let n = if ini_length == 0 then alloc_unit else ini_length in
      record { array = replicate n none; start = 0; num = 0; anum = n }

  unfoldable pub clear : Ulist A → Ulist A
  unfolding init
  clear list = init alloc_unit

  unfoldable pub reset : Ulist A → Ulist A
  reset list = record list { num = 0; start = 0 }

  -- The unit that the returned pointer shows; `none` for a null pointer.
  unfoldable pub get : Ulist A → ℕ → Option (Option A)
  get list idx = if leb list.num idx then none else get_elem? list.array (u32 (idx + list.start))

  unfoldable pub peek : Ulist A → Option (Option A)
  unfolding get
  peek list = if list.num == 0 then none else get list (list.num - 1)

  -- The reallocation that push, insert and unshift make when the block is full.
  unfoldable pub grow : Ulist A → Ulist A
  unfolding realloc
  grow list =
      let n = u32 (list.anum + list.num + 1) in
      record list { anum = n; array = realloc n list.array }

  -- The test of push and insert for a unit that does not fit behind the last one.
  unfoldable pub reserve : Ulist A → Ulist A
  unfolding grow
  reserve list = if leb list.anum (u32 (list.start + list.num)) then grow list else list

  -- The `num` units from `start` on are moved to the front of the block.
  unfoldable pub to_front : ℕ → ℕ → List (Option A) → List (Option A)
  unfolding memmove
  to_front start num cells = if start == 0 then cells else memmove 0 start num cells

  -- The reallocation that remove, pop and shift make when half of the block is free.
  unfoldable pub shrink : ℕ → ℕ → Ulist A → Ulist A
  unfolding realloc to_front
  shrink start num list =
      let n = if ltb alloc_unit num then num else alloc_unit in
      record { array = realloc n (to_front start num list.array); start = 0; num = num; anum = n }

  unfoldable pub insert : Ulist A → ℕ → A → Ulist A
  unfolding reserve memmove
  insert list idx x =
      let i = u32 (idx + list.start) in
      let l = reserve list in
      let moved = memmove (i + 1) i (l.start + l.num - i) l.array in
      if ltb list.num idx
      then list
      else record l { array = blit i (some x ∷ []) moved; num = u32 (l.num + 1) }

  unfoldable pub set : Ulist A → ℕ → A → Ulist A
  set list idx x =
      if leb list.num idx
      then list
      else record list { array = blit (u32 (idx + list.start)) (some x ∷ []) list.array }

  unfoldable pub remove : Ulist A → ℕ → Ulist A
  unfolding shrink
  remove list idx =
      let i = u32 (idx + list.start) in
      let n = list.num - 1 in
      let l = record list { num = n; array = memmove i (i + 1) (list.start + n - i) list.array } in
      if leb list.num idx
      then list
      else if ltb alloc_unit l.anum && leb (u32 (n * 2)) l.anum
      then shrink l.start n l
      else l

  unfoldable pub push : Ulist A → A → Ulist A
  unfolding reserve
  push list x =
      let idx = u32 (list.start + list.num) in
      let l = reserve list in
      record l { array = blit idx (some x ∷ []) l.array; num = u32 (l.num + 1) }

  unfoldable pub pop : Ulist A → Ulist A
  unfolding shrink
  pop list =
      let n = list.num - 1 in
      if list.num == 0
      then list
      else if ltb alloc_unit list.anum && leb (n * 2) list.anum
      then shrink list.start n list
      else record list { num = n }

  unfoldable pub pop_no_realloc : Ulist A → Ulist A
  pop_no_realloc list = if ltb 0 list.num then record list { num = list.num - 1 } else list

  -- The gap that unshift opens in front of the units: they are moved to the end of the block.
  unfoldable pub open_gap : Ulist A → Ulist A
  unfolding grow memmove
  open_gap list =
      let l = if leb list.anum list.num then grow list else list in
      let s = l.anum - l.num in record l { start = s; array = memmove s 0 l.num l.array }

  unfoldable pub unshift : Ulist A → A → Ulist A
  unfolding open_gap
  unshift list x =
      let l = if list.start == 0 then open_gap list else list in
      record l {
        array = blit (l.start - 1) (some x ∷ []) l.array;
        start = l.start - 1;
        num = u32 (l.num + 1);
      }

  unfoldable pub shift : Ulist A → Ulist A
  unfolding shrink
  shift list =
      let n = list.num - 1 in
      if list.num == 0
      then list
      else if ltb alloc_unit list.anum && leb (n * 2) list.anum
      then shrink (list.start + 1) n list
      else record list { start = list.start + 1; num = n }

  unfoldable pub clone : Ulist A → Ulist A
  unfolding init
  clone list =
      let n = if ltb alloc_unit list.num then list.num else alloc_unit in
      if list.num == 0 then init list.anum else record {
        array = blit 0 (slice list.start list.num list.array) (replicate n none);
        start = 0;
        num = list.num;
        anum = n;
      }

  -- memcmp of the unit with the cell
  abbrev pub cell_eq : (A → A → Bool) → A → Option (Option A) → Bool
  cell_eq eq x (some (some y)) = eq x y
  cell_eq eq x _ = false

  -- The loop of find and remove_by, with n rounds left at the cell i.
  unfoldable pub find_from : (A → A → Bool) → A → List (Option A) → ℕ → ℕ → Option ℕ
  find_from eq x cells zero i = none
  find_from eq x cells (suc n) i =
      let rest = find_from eq x cells n (i + 1) in
      if cell_eq eq x (get_elem? cells i) then some i else rest

  -- The index that the loop stops at, in cells from the front of the block.
  unfoldable pub find_cell : (A → A → Bool) → Ulist A → A → Option ℕ
  unfolding find_from
  find_cell eq list x =
      find_from eq x list.array (u32 (list.start + list.num) - list.start) list.start

  -- `none` stands for -1.
  unfoldable pub find : (A → A → Bool) → Ulist A → A → Option ℕ
  unfolding find_cell
  find eq list x = elim (find_cell eq list x) [ none ↦ none | some i ↦ some (i - list.start) ]

  -- It returns `i`, which counts from the front of the block, where find returns `i - start`.
  unfoldable pub take_out : Ulist A → Option ℕ → Option ℕ × Ulist A
  unfolding remove
  take_out list none = (none, list)
  take_out list (some i) = (some i, remove list (i - list.start))

  unfoldable pub remove_by : (A → A → Bool) → Ulist A → A → Option ℕ × Ulist A
  unfolding find_cell take_out
  remove_by eq list x = take_out list (find_cell eq list x)
