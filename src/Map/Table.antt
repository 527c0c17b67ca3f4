-- ===== src/Map/Table.antt =====
-- map.c: hashes, the table of entries and the probe loops. A table is a function from slots to
-- entries; the loops get as many rounds as the table has slots, and are `none` without an end.
use autark.Prelude.{
  ℕ, zero, suc, ◌+◌, ◌-◌, ◌*◌, ◌/◌, ◌%◌, ◌^◌, Bool, true, false, ◌&&◌, Option, none, some, List, [],
  ◌∷◌, Bytes, str_eq, ◌==◌, if◌then◌else◌,
}

-- The 32 bits of a number from a bit and the number of those above it.
abbrev push_bit : ℕ → ℕ → ℕ
push_bit b high = b + 2 * high

-- The ^ of C, of numbers with that many bits.
unfoldable pub bit_xor : ℕ → ℕ → ℕ → ℕ
bit_xor zero a b = 0
bit_xor (suc n) a b = push_bit ((a % 2 + b % 2) % 2) (bit_xor n (a / 2) (b / 2))

-- The & of C, of numbers with that many bits.
unfoldable pub bit_and : ℕ → ℕ → ℕ → ℕ
bit_and zero a b = 0
bit_and (suc n) a b = push_bit ((a % 2) * (b % 2)) (bit_and n (a / 2) (b / 2))

abbrev pub initial_capacity : ℕ
initial_capacity = 64

-- 1 << 30
abbrev pub max_capacity : ℕ
max_capacity = 1073741824

-- _map_entry; the key of an empty slot is not read.
pub record Entry {ℓ} (V : Type ℓ) : Type ℓ where
  pub key : Bytes
  pub val : Option V
  pub hash : ℕ

abbrev pub empty_slot {ℓ} : {V : Type ℓ} → Entry V
empty_slot = record { key = []; val = none; hash = 0 }

-- The table after a write to one slot.
abbrev pub set_slot {ℓ} : {V : Type ℓ} → (ℕ → Entry V) → ℕ → Entry V → ℕ → Entry V
set_slot entries i e j = if j == i then e else entries j

-- struct map, with the keys and values that kv_free_fn has been called on, the latest first.
pub record Map {ℓ} (V : Type ℓ) : Type ℓ where
  pub entries : ℕ → Entry V
  pub capacity : ℕ
  pub capacity_mask : ℕ
  pub count : ℕ
  pub freed : List (Bytes × Option V)

-- _map_max_load, with LOAD_PERCENT + 1 for 4
unfoldable pub map_max_load : ℕ → ℕ
map_max_load capacity = capacity - capacity / 4

-- _map_nhash
unfoldable pub map_nhash : ℕ → ℕ
map_nhash hash = let h = (hash + 1) % 2 ^ 32 in if h == 0 then 1 else h

-- The loop of _map_hash_buf_key.
unfoldable pub hash_from : ℕ → Bytes → ℕ
hash_from hash [] = hash
hash_from hash (c ∷ str) = hash_from ((bit_xor 32 hash c * 16777619) % 2 ^ 32) str

-- _map_hash_buf_key
unfoldable pub map_hash_buf_key : Bytes → ℕ
unfolding hash_from
map_hash_buf_key key = hash_from 2166136261 key

-- (i + 1) & mask
unfoldable pub next_slot : ℕ → ℕ → ℕ
next_slot mask i = bit_and 32 ((i + 1) % 2 ^ 32) mask

-- The test for the entry that is looked for.
abbrev pub matches {ℓ} : {V : Type ℓ} → Bytes → ℕ → Entry V → Bool
matches key nhash entry = entry.hash == nhash && str_eq key entry.key

-- The loop of _map_entry_find: the slot of the key, or `none` at an empty slot.
unfoldable pub find_loop {ℓ} :
    {V : Type ℓ} → (ℕ → Entry V) → ℕ → Bytes → ℕ → ℕ → ℕ → Option (Option ℕ)
find_loop entries mask key nhash zero i = none
find_loop entries mask key nhash (suc n) i =
    let rest = find_loop entries mask key nhash n (next_slot mask i) in
    if (entries i).hash == 0
    then some none
    else (if matches key nhash (entries i) then some (some i) else rest)

-- _map_entry_find
unfoldable pub map_entry_find {ℓ} : {V : Type ℓ} → Map V → Bytes → ℕ → Option (Option ℕ)
unfolding find_loop
map_entry_find hm key nhash =
    find_loop hm.entries hm.capacity_mask key nhash hm.capacity (bit_and 32 nhash hm.capacity_mask)

-- The loop of _map_entry_put: the map, the slot and whether it has been claimed.
unfoldable pub put_loop {ℓ} : {V : Type ℓ} → Map V → Bytes → ℕ → ℕ → ℕ → Option (Map V × ℕ × Bool)
put_loop hm key nhash zero i = none
put_loop hm key nhash (suc n) i =
    let rest = put_loop hm key nhash n (next_slot hm.capacity_mask i) in
    if (hm.entries i).hash == 0
    then some (
      record hm {
        entries = set_slot hm.entries i (record { key = []; val = none; hash = nhash });
        count = hm.count + 1;
      },
      i,
      true,
    )
    else (if matches key nhash (hm.entries i) then some (hm, i, false) else rest)

-- _map_entry_put
unfoldable pub map_entry_put {ℓ} : {V : Type ℓ} → Map V → Bytes → ℕ → Option (Map V × ℕ × Bool)
unfolding put_loop
map_entry_put hm key nhash = put_loop hm key nhash hm.capacity (bit_and 32 nhash hm.capacity_mask)
