-- ===== src/Map/Refine/Put.antt =====
-- map.c: map_put_str stores a value for a key, and frees what it replaces.
use mathlib.Core.Option
use autark.Prelude.{
  ℕ, ◌+◌, ◌≤◌, ◌<◌, ◌≡◌, refl, sym, ap, ap₂, ◌∙◌, inl, inr, true, false, Option, none, some, [],
  ◌∷◌, arith, Bytes, ◌==◌, if◌then◌else◌, ==_iff, Bool-cases, eq_self,
}
use autark.Map.Table.{Entry, Map, set_slot, max_capacity, map_max_load, map_hash_buf_key}
use autark.Map.{map_put_str, write_slot}
use autark.Map.Probe.{map_nhash_nonzero}
use autark.Map.Cycle.{pow_two}
use autark.Map.Count.{busy_count-set, weight}
use autark.Map.Probe.{hash_of, IsLive, IsTable}
use autark.Map.Insert.{same_keys-IsTable}
use autark.Map.Refine.{Holds, value_at}
use autark.Map.Refine.Reserve.{map_reserve_entry-Holds, map_reserve_entry_full, full_capacity}
use autark.Map.Close.{not_free}
use autark.Map.Refine.Store.{is_some, update, free_old, stored, set_twice, store-Holds}
use autark.Map.Refine.Slot.{claimed, entry_put_lem}

module _ {ℓ} {V : Type ℓ} where
  write_found :
      (m : Map V) (key : Bytes) (val : Option V) (i : ℕ)
      → (m.entries i).hash ≡ hash_of key
      → (m.entries i).key ≡ key
      → write_slot key val (m, i, false) ≡ record m {
        entries = set_slot m.entries i (stored key val);
        freed = (key, (m.entries i).val) ∷ m.freed;
      }
  unfolding write_slot stored
  write_found m key val i q s =
      ap₂
        (λ n (k : Bytes). record m {
          entries = set_slot m.entries i (record { key = key; val = val; hash = n });
          freed = (k, (m.entries i).val) ∷ m.freed;
        })
        q s

  write_claimed :
      (m : Map V) (key : Bytes) (val : Option V) (i : ℕ)
      → write_slot key val (claimed m (hash_of key) i, i, true)
        ≡ record m { entries = set_slot m.entries i (stored key val); count = m.count + 1 }
  unfolding write_slot stored claimed
  write_claimed m key val i = rw (eq_self i) (
      ap (λ (e : ℕ → Entry V). record m { entries = e; count = m.count + 1 })
        (set_twice m.entries i (record { key = []; val = none; hash = hash_of key })
          (stored key val)))

  weight-stored : (key : Bytes) (val : Option V) → weight (stored key val) ≡ 1
  unfolding stored
  weight-stored key val = rw (map_nhash_nonzero (map_hash_buf_key key)) refl

  hash_there :
      (e : ℕ → Entry V) (i : ℕ) (key : Bytes) (val : Option V)
      → (e i).hash ≡ hash_of key
      → (j : ℕ) → (set_slot e i (stored key val) j).hash ≡ (e j).hash
  unfolding stored
  hash_there e i key val q j = elim (Bool-cases (j == i)) [
    | inl y ↦ rw y (sym q ∙ ap (λ x. (e x).hash) (sym ((==_iff j i).0 y)))
    | inr n ↦ rw n refl
  ]

  key_there :
      (e : ℕ → Entry V) (i : ℕ) (key : Bytes) (val : Option V)
      → (e i).key ≡ key
      → (j : ℕ) → (set_slot e i (stored key val) j).key ≡ (e j).key
  unfolding stored
  key_there e i key val q j = elim (Bool-cases (j == i)) [
    | inl y ↦ rw y (sym q ∙ ap (λ x. (e x).key) (sym ((==_iff j i).0 y)))
    | inr n ↦ rw n refl
  ]

  replace-Holds :
      (m : Map V) (f : Bytes → Option (Option V)) (g : Holds m f) (key : Bytes) (val : Option V)
      (i : ℕ)
      → IsLive (pow_two g.bits) m.entries (pow_two g.bits) i
      → (m.entries i).key ≡ key
      → Holds
          (record m {
            entries = set_slot m.entries i (stored key val);
            freed = (key, (m.entries i).val) ∷ m.freed;
          })
          (update f key (some val))
  replace-Holds m f g key val i v s =
      let c = pow_two g.bits in
      let hashed : (m.entries i).hash ≡ hash_of key = g.table.hashed i v ∙ ap hash_of s in
      store-Holds m f g key val i m.count ((key, (m.entries i).val) ∷ m.freed) v.within
        (λ j w k. g.table.unique j i w v (k ∙ sym s)) (λ j w e. ap (λ x. (m.entries x).key) e ∙ s)
        (same_keys-IsTable g.bits m.entries (set_slot m.entries i (stored key val)) c
          (λ j. hash_there m.entries i key val hashed j) (λ j w. key_there m.entries i key val s j)
          g.table)
        (let q = g.counted in
          let o : weight (m.entries i) ≡ 1 = let b = v.busy in rw b refl in
          omega (
            arith,
            q,
            o,
            weight-stored key val,
            busy_count-set m.entries i (stored key val) (pow_two g.bits) v.within,
          ))
        g.load

  add-Holds :
      (m : Map V) (f : Bytes → Option (Option V)) (g : Holds m f) (key : Bytes) (val : Option V)
      (i : ℕ)
      → f key ≡ none
      → i < pow_two g.bits
      → (m.entries i).hash == 0 ≡ true
      → IsTable g.bits (set_slot m.entries i (stored key val)) (pow_two g.bits)
      → m.count + 1 ≤ map_max_load m.capacity
      → Holds
          (record m { entries = set_slot m.entries i (stored key val); count = m.count + 1 })
          (update f key (some val))
  unfolding map_max_load
  add-Holds m f g key val i absent l z t roomy =
      store-Holds m f g key val i (m.count + 1) m.freed l
        (λ j w k. absurd (cc (absent, value_at m f g key j w k)))
        (λ j w e. absurd (not_free g.bits (omega (arith, g.high)) m.entries j i w.busy z e)) t
        (let q = g.counted in
          let o : weight (m.entries i) ≡ 0 = rw z refl in
          omega (
            arith,
            q,
            o,
            weight-stored key val,
            busy_count-set m.entries i (stored key val) (pow_two g.bits) l,
          ))
        (let q = g.size in rw q at roomy)

  -- A key gets the value, in a map that has room for one entry more than it has; what the key had
  -- before is freed, and all other keys keep what they have.
  pub map_put_str-Holds :
      (hm : Map V) (f : Bytes → Option (Option V)) (key : Bytes) (val : Option V)
      → Holds hm f
      → hm.count + 1 ≤ map_max_load max_capacity
      → (r : Map V) × (map_put_str hm key val ≡ some r)
        × Holds r (update f key (some val))
        × (r.freed ≡ free_old key (f key) hm.freed)
        × (r.count ≡ hm.count + (if is_some (f key) then 0 else 1))
  unfolding map_put_str free_old Option.bind
  map_put_str-Holds hm f key val h l =
      let (m, q, g, roomy, c, fr) = map_reserve_entry-Holds hm f h l in
      elim (entry_put_lem m f g key) [
        | inl (i, v, s, e) ↦ (
          record m {
            entries = set_slot m.entries i (stored key val);
            freed = (key, (m.entries i).val) ∷ m.freed;
          },
          rw (q, e) (ap some (write_found m key val i (g.table.hashed i v ∙ ap hash_of s) s)),
          replace-Holds m f g key val i v s,
          rw (value_at m f g key i v s, fr) refl,
          rw (value_at m f g key i v s) (omega (arith, c)),
        )
        | inr (i, absent, i_lt, z, e, t) ↦ (
          record m { entries = set_slot m.entries i (stored key val); count = m.count + 1 },
          rw (q, e) (ap some (write_claimed m key val i)),
          add-Holds m f g key val i absent i_lt z (t val) roomy,
          rw absent fr,
          rw absent (omega (arith, c)),
        )
      ]

  -- With 3/4 of 2 ^ 30 entries, map_put_str ends the program.
  map_put_str_full :
      (hm : Map V) (f : Bytes → Option (Option V)) (key : Bytes) (val : Option V)
      → Holds hm f
      → map_max_load max_capacity ≤ hm.count
      → map_put_str hm key val ≡ none
  unfolding map_put_str Option.bind map_max_load
  map_put_str_full hm f key val h l =
      rw (map_reserve_entry_full hm (full_capacity hm f h l) (omega arith)) refl
