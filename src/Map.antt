-- ===== src/Map.antt =====
-- map.c: the map from strings to values, on an open table of entries. The iterator is left out.
pub mod Table
pub mod Cycle
mod Arcs
mod Probe
mod Find
mod Insert
mod Count
mod Close
mod Resize
pub mod Refine
mod Examples
use mathlib.Core.Option
use autark.Prelude.{
  ℕ, zero, suc, ◌+◌, ◌-◌, ◌*◌, ◌/◌, ◌%◌, ◌^◌, Bool, true, false, not, ◌&&◌, Option, none, some,
  List, [], ◌∷◌, map, Bytes, ltb, leb, ◌==◌, if◌then◌else◌,
}
use autark.Map.Table.{
  bit_and, initial_capacity, max_capacity, Entry, empty_slot, set_slot, Map, map_max_load,
  map_nhash, map_hash_buf_key, next_slot, map_entry_find, map_entry_put,
}

-- The search of _map_resize for a free slot.
unfoldable pub free_slot {ℓ} : {V : Type ℓ} → (ℕ → Entry V) → ℕ → ℕ → ℕ → Option ℕ
free_slot entries mask zero i = none
free_slot entries mask (suc n) i =
    let rest = free_slot entries mask n (next_slot mask i) in
    if (entries i).hash == 0 then some i else rest

-- The body of the loop of _map_resize, which puts an entry into the new table.
unfoldable pub move_entry {ℓ} :
    {V : Type ℓ} → ℕ → Entry V → (ℕ → Entry V) × ℕ → Option ((ℕ → Entry V) × ℕ)
unfolding free_slot
move_entry capacity entry (new, count) =
    if entry.hash == 0
    then some (new, count)
    else Option.map (λ i. (set_slot new i entry, count + 1))
        (free_slot new (capacity - 1) capacity (bit_and 32 entry.hash (capacity - 1)))

-- The loop of _map_resize, over n slots of the old table from j on.
unfoldable pub move_entries {ℓ} :
    {V : Type ℓ} → ℕ → (ℕ → Entry V) → ℕ → ℕ → (ℕ → Entry V) × ℕ → Option ((ℕ → Entry V) × ℕ)
move_entries capacity old zero j s = some s
move_entries capacity old (suc n) j s =
    Option.bind (move_entry capacity (old j) s) (λ s'. move_entries capacity old n (j + 1) s')

-- The assertions at the start of _map_resize.
unfoldable pub is_capacity : ℕ → ℕ → Bool
is_capacity capacity old =
    (bit_and 32 capacity (capacity - 1) == 0 && not (capacity == old))
    && (leb initial_capacity capacity && leb capacity max_capacity)

-- The assignments at the end of _map_resize, behind its assertion on the count.
unfoldable pub adopt_table {ℓ} : {V : Type ℓ} → Map V → ℕ → (ℕ → Entry V) × ℕ → Option (Map V)
adopt_table hm capacity (new, count) =
    if count == hm.count
    then some (record hm { entries = new; capacity = capacity; capacity_mask = capacity - 1 })
    else none

-- _map_resize
unfoldable pub map_resize {ℓ} : {V : Type ℓ} → Map V → ℕ → Option (Map V)
unfolding move_entries move_entry is_capacity adopt_table
map_resize hm capacity =
    if is_capacity capacity hm.capacity
    then Option.bind (move_entries capacity hm.entries hm.capacity 0 ((λ i. empty_slot), 0))
        (adopt_table hm capacity)
    else none

-- _map_reserve_entry
unfoldable pub map_reserve_entry {ℓ} : {V : Type ℓ} → Map V → Option (Map V)
unfolding map_max_load
map_reserve_entry hm =
    if leb (hm.count + 1) (map_max_load hm.capacity)
    then some hm
    else (if leb max_capacity hm.capacity then none else map_resize hm (hm.capacity * 2))

-- The test for a hole on the probe path of the entry in slot i, whose path starts at home.
unfoldable pub on_path : ℕ → ℕ → ℕ → ℕ → Bool
on_path mask home hole i =
    leb (bit_and 32 ((hole + 2 ^ 32 - home) % 2 ^ 32) mask)
      (bit_and 32 ((i + 2 ^ 32 - home) % 2 ^ 32) mask)

-- The loop of _map_entry_remove that moves entries back: the table and the last hole.
unfoldable pub close_hole {ℓ} :
    {V : Type ℓ} → ℕ → ℕ → (ℕ → Entry V) → ℕ → ℕ → Option ((ℕ → Entry V) × ℕ)
unfolding on_path
close_hole mask zero entries hole i = none
close_hole mask (suc n) entries hole i =
    let moves = on_path mask (bit_and 32 (entries i).hash mask) hole i in
    let moved = if moves then set_slot entries hole (entries i) else entries in
    let rest = close_hole mask n moved (if moves then i else hole) (next_slot mask i) in
    if (entries i).hash == 0 then some (entries, hole) else rest

-- The test for shrinking, with SHRINK_DIVISOR for 8.
unfoldable pub shrink_table {ℓ} : {V : Type ℓ} → Map V → Option (Map V)
shrink_table hm =
    if ltb initial_capacity hm.capacity && ltb hm.count (hm.capacity / 8)
    then map_resize hm (hm.capacity / 2)
    else some hm

-- _map_entry_remove
unfoldable pub map_entry_remove {ℓ} : {V : Type ℓ} → Map V → ℕ → Option (Map V)
unfolding close_hole
map_entry_remove hm slot =
    let gone = hm.entries slot in
    Option.bind
      (close_hole hm.capacity_mask hm.capacity hm.entries slot (next_slot hm.capacity_mask slot))
      (λ r. shrink_table (record hm {
        entries = set_slot r.0 r.1 empty_slot;
        count = hm.count - 1;
        freed = (gone.key, gone.val) ∷ hm.freed;
      }))

-- The writes of _map_put to the slot that is found.
unfoldable pub write_slot {ℓ} : {V : Type ℓ} → Bytes → Option V → Map V × ℕ × Bool → Map V
write_slot key val (hm, i, created) =
    let old = hm.entries i in
    record hm {
      entries = set_slot hm.entries i (record old { key = key; val = val });
      freed = if created then hm.freed else (old.key, old.val) ∷ hm.freed;
    }

-- _map_put, for map_put_str and map_put_str_no_copy
unfoldable pub map_put_str {ℓ} : {V : Type ℓ} → Map V → Bytes → Option V → Option (Map V)
map_put_str hm key val = Option.bind (map_reserve_entry hm) (λ hm'.
    Option.map (write_slot key val) (map_entry_put hm' key (map_nhash (map_hash_buf_key key))))

-- map_create_str
abbrev pub map_create_str {ℓ} : {V : Type ℓ} → Map V
map_create_str = record {
  entries = λ i. empty_slot;
  capacity = initial_capacity;
  capacity_mask = initial_capacity - 1;
  count = 0;
  freed = [];
}

-- The loop of map_destroy, over n slots from j on.
unfoldable pub free_from {ℓ} :
    {V : Type ℓ} → (ℕ → Entry V) → ℕ → ℕ → List (Bytes × Option V) → List (Bytes × Option V)
free_from entries zero j freed = freed
free_from entries (suc n) j freed =
    free_from entries n (j + 1)
      (if (entries j).hash == 0 then freed else ((entries j).key, (entries j).val) ∷ freed)

-- map_destroy: what has been freed.
unfoldable pub map_destroy {ℓ} : {V : Type ℓ} → Map V → List (Bytes × Option V)
unfolding free_from
map_destroy hm = free_from hm.entries hm.capacity 0 hm.freed

-- map_remove, with whether the key was there
unfoldable pub map_remove {ℓ} : {V : Type ℓ} → Map V → Bytes → Option (Map V × Bool)
map_remove hm key = Option.bind (map_entry_find hm key (map_nhash (map_hash_buf_key key))) (λ found.
    elim found [
      | none ↦ some (hm, false)
      | some i ↦ Option.map (λ r. (r, true)) (map_entry_remove hm i)
    ])

-- map_get
unfoldable pub map_get {ℓ} : {V : Type ℓ} → Map V → Bytes → Option (Option V)
unfolding map_entry_find
map_get hm key =
    Option.map (λ found. Option.bind found (λ i. (hm.entries i).val))
      (map_entry_find hm key (map_nhash (map_hash_buf_key key)))
