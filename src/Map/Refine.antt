-- ===== src/Map/Refine.antt =====
-- map.c: a map refines a function from keys to values.
mod Reserve
pub mod Store
mod Slot
pub mod Put
pub mod Remove
pub mod History
use mathlib.Core.Option
use autark.Prelude.{
  ℕ, ◌-◌, ◌/◌, ◌≤◌, ◌<◌, ◌≡◌, refl, sym, ap, ◌∙◌, inl, inr, Option, none, some, arith, Bytes,
  Option-cases,
}
use autark.Map.Table.{Entry, Map, empty_slot, initial_capacity, map_max_load, map_entry_find}
use autark.Map.{map_create_str, map_get}
use autark.Map.Cycle.{pow_two, ones, pow_two_mono, bit_and-lt}
use autark.Map.Probe.{hash_of, IsLive, IsTable}
use autark.Map.Count.{busy_count, busy_count-none, free_of_count}
use autark.Map.Find.{find_lem, IsAbsent}

pub pow_two_six : pow_two 6 ≡ 64
unfolding pow_two
pow_two_six = refl

module _ {ℓ} {V : Type ℓ} where
  -- The map holds the keys and values of f, in a table of a power of two of slots that keeps its
  -- invariant and is filled to at most three quarters.
  pub record Holds (hm : Map V) (f : Bytes → Option (Option V)) : Type ℓ where
    pub bits : ℕ
    pub low : 6 ≤ bits
    pub high : bits ≤ 30
    pub size : hm.capacity ≡ pow_two bits
    pub masked : hm.capacity_mask ≡ ones bits
    pub table : IsTable bits hm.entries (pow_two bits)
    pub counted : busy_count hm.entries (pow_two bits) ≡ hm.count
    pub load : hm.count ≤ pow_two bits - pow_two bits / 4
    pub shows :
        (i : ℕ)
        → IsLive (pow_two bits) hm.entries (pow_two bits) i
        → f (hm.entries i).key ≡ some (hm.entries i).val
    pub has :
        (key : Bytes) (v : Option V)
        → f key ≡ some v
        → (i : ℕ) × IsLive (pow_two bits) hm.entries (pow_two bits) i × ((hm.entries i).key ≡ key)

  pub room :
      (hm : Map V) (f : Bytes → Option (Option V)) (h : Holds hm f)
      → busy_count hm.entries (pow_two h.bits) < pow_two h.bits
  room hm f h = omega (arith, h.counted, h.load, h.low, pow_two_mono 6 h.bits h.low, pow_two_six)

  -- A slot that has the key has its value, and a key that no slot has is not in f.
  pub value_at :
      (hm : Map V) (f : Bytes → Option (Option V)) (h : Holds hm f) (key : Bytes) (i : ℕ)
      → IsLive (pow_two h.bits) hm.entries (pow_two h.bits) i
      → (hm.entries i).key ≡ key
      → f key ≡ some (hm.entries i).val
  value_at hm f h key i v q = ap f (sym q) ∙ h.shows i v

  pub value_absent :
      (hm : Map V) (f : Bytes → Option (Option V)) (h : Holds hm f) (key : Bytes)
      → IsAbsent h.bits (omega (arith, h.high)) hm.entries key
      → f key ≡ none
  value_absent hm f h key absent = elim (Option-cases (f key)) [
    | inl n ↦ n
    | inr (v, q) ↦ let (i, w, s) = h.has key v q in absurd (absent i w s)
  ]

  -- A new map is empty.
  pub map_create_str-Holds : Holds map_create_str (λ key. none)
  unfolding busy_count pow_two ones
  map_create_str-Holds = record {
    bits = 6;
    low = omega arith;
    high = omega arith;
    size = refl;
    masked = refl;
    table = record {
      hashed = λ i v. absurd (cc (v.busy));
      reach = λ i d v. absurd (cc (v.busy));
      unique = λ i j v. absurd (cc (v.busy));
    };
    counted = busy_count-none V (pow_two 6);
    load = omega arith;
    shows = λ i v. absurd (cc (v.busy));
    has = λ key v q. cc q;
  }

  -- map_get returns the value of the key, and a null pointer for a key that is not there.
  pub map_get-Holds :
      (hm : Map V) (f : Bytes → Option (Option V)) (key : Bytes)
      → Holds hm f
      → map_get hm key ≡ some (Option.bind (f key) (λ v. v))
  unfolding map_get map_entry_find Option.bind
  map_get-Holds hm f key h =
      let fits : h.bits ≤ 31 = omega (arith, h.high) in
      let (z, z_lt, free) = free_of_count hm.entries (pow_two h.bits) (room hm f h) in
      rw (h.size, h.masked)
        (elim (find_lem h.bits fits hm.entries key h.table z z_lt free) [
          | inl (i, v, q, r) ↦ rw (r, value_at hm f h key i v q) refl
          | inr (absent, r) ↦ rw (r, value_absent hm f h key absent) refl
        ])
