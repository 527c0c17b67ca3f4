-- ===== src/Map/Refine/Store.antt =====
-- map.c: a map after a write of a key and a value to a slot.
use mathlib.Core.Path.{fun_ext}
use autark.Prelude.{
  ℕ, ◌-◌, ◌/◌, ◌≤◌, ◌<◌, ◌≡◌, refl, sym, ap, ◌∙◌, inl, inr, Bool, true, false, Option, none, some,
  List, ◌∷◌, Bytes, str_eq, str_eq_refl, str_eq_iff, ◌==◌, if◌then◌else◌, ==_iff, Bool-cases,
}
use autark.Map.Table.{Entry, Map, set_slot, map_hash_buf_key}
use autark.Map.Probe.{map_nhash_nonzero}
use autark.Map.Cycle.{pow_two}
use autark.Map.Count.{busy_count}
use autark.Map.Probe.{hash_of, IsBusy, IsLive, IsTable}
use autark.Map.Insert.{set_same, set_other}
use autark.Map.Close.{ne_of_lt, ne_of_test}
use autark.Map.Refine.{Holds}

pub str_ne : (a b : Bytes) → (a ≡ b → ⊥) → str_eq a b ≡ false
str_ne a b n = elim (Bool-cases (str_eq a b)) [
  | inl y ↦ absurd (n ((str_eq_iff a b).0 y))
  | inr m ↦ m
]

abbrev pub is_some {ℓ} : {A : Type ℓ} → Option A → Bool
is_some none = false
is_some (some a) = true

module _ {ℓ} {V : Type ℓ} where
  -- The function with another value at a key.
  abbrev pub update :
      (Bytes → Option (Option V)) → Bytes → Option (Option V) → Bytes → Option (Option V)
  update f key o q = if str_eq q key then o else f q

  -- What is freed when a key gets another value, or none.
  unfoldable pub free_old :
      Bytes → Option (Option V) → List (Bytes × Option V) → List (Bytes × Option V)
  free_old key none freed = freed
  free_old key (some old) freed = (key, old) ∷ freed

  unfoldable pub stored : Bytes → Option V → Entry V
  stored key val = record { key = key; val = val; hash = hash_of key }

  pub set_twice :
      (e : ℕ → Entry V) (i : ℕ) (y x : Entry V) → set_slot (set_slot e i y) i x ≡ set_slot e i x
  set_twice e i y x =
      fun_ext (λ j. elim (Bool-cases (j == i)) [ inl t ↦ rw t refl | inr n ↦ rw n refl ])

  -- A map whose slot i has got the key and the value, where no other slot has the key.
  pub store-Holds :
      (hm : Map V) (f : Bytes → Option (Option V)) (h : Holds hm f) (key : Bytes) (val : Option V)
      (i count : ℕ) (freed : List (Bytes × Option V))
      → i < pow_two h.bits
      → ((j : ℕ)
          → IsLive (pow_two h.bits) hm.entries (pow_two h.bits) j
          → (hm.entries j).key ≡ key
          → j ≡ i)
      → ((j : ℕ)
          → IsLive (pow_two h.bits) hm.entries (pow_two h.bits) j
          → j ≡ i
          → (hm.entries j).key ≡ key)
      → IsTable h.bits (set_slot hm.entries i (stored key val)) (pow_two h.bits)
      → busy_count (set_slot hm.entries i (stored key val)) (pow_two h.bits) ≡ count
      → count ≤ pow_two h.bits - pow_two h.bits / 4
      → Holds
          (record hm {
            entries = set_slot hm.entries i (stored key val);
            count = count;
            freed = freed;
          })
          (update f key (some val))
  unfolding stored
  store-Holds hm f h key val i count freed i_lt only own t counted load = record {
    bits = h.bits;
    low = h.low;
    high = h.high;
    size = h.size;
    masked = h.masked;
    table = t;
    counted = counted;
    load = load;
    shows = λ j v. elim (Bool-cases (j == i)) [
      | inl y ↦ rw (y, str_eq_refl key) refl
      | inr n ↦
          let x = stored key val in
          let o = set_other hm.entries i x j n in
          let w = back hm.entries i x j n v in
          let other : str_eq (hm.entries j).key key ≡ false =
            str_ne (hm.entries j).key key (λ q. ne_of_test j i n (only j w q)) in
          rw (o, other) (h.shows j w)
    ];
    has = λ q v e. elim (Bool-cases (str_eq q key)) [
      | inl y ↦
          let x = stored key val in
          let same = set_same hm.entries i x in
          let busy : IsBusy (set_slot hm.entries i x) i =
            rw same (map_nhash_nonzero (map_hash_buf_key key)) in
          (
            i,
            record { within = i_lt; busy = busy; apart = ne_of_lt i (pow_two h.bits) i_lt },
            ap (λ y. y.key) same ∙ sym ((str_eq_iff q key).0 y),
          )
      | inr n ↦
          let old : f q ≡ some v = rw n at e in
          let (j, w, r) = h.has q v old in
          elim (Bool-cases (j == i)) [
            | inl y ↦
                let k = own j w ((==_iff j i).0 y) in
                absurd (cc (n, (str_eq_iff q key).1 (sym r ∙ k)))
            | inr m ↦
                let o = set_other hm.entries i (stored key val) j m in
                (
                  j,
                  record { within = w.within; busy = rw o w.busy; apart = w.apart },
                  ap (λ y. y.key) o ∙ r,
                )
          ]
    ];
  }
    where
      back :
          (e : ℕ → Entry V) (i : ℕ) (x : Entry V) (j : ℕ)
          → j == i ≡ false
          → IsLive (pow_two h.bits) (set_slot e i x) (pow_two h.bits) j
          → IsLive (pow_two h.bits) e (pow_two h.bits) j
      back e i x j n v = record {
        within = v.within;
        busy = rw (set_other e i x j n) at v.busy;
        apart = v.apart;
      }
