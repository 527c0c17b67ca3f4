-- ===== src/Map/Probe.antt =====
-- map.c: the invariant of a table, and what probing finds in it.
use autark.Prelude.{
  ℕ, zero, suc, ◌+◌, ◌<◌, ◌≡◌, ◌⊎◌, inl, inr, Bool, true, false, arith, Bytes, ◌==◌, ==_iff,
  Bool-cases,
}
use autark.Map.Table.{Entry, bit_and, map_nhash, map_hash_buf_key}
use autark.Map.Cycle.{pow_two, ones, at, dist}
use autark.Map.Arcs.{dist-lt, at-dist}

-- The hash that the table keeps for a key.
abbrev pub hash_of : Bytes → ℕ
hash_of key = map_nhash (map_hash_buf_key key)

pub map_nhash_nonzero : (hash : ℕ) → map_nhash hash == 0 ≡ false
unfolding map_nhash
map_nhash_nonzero hash = ground arith

module _ {ℓ} {V : Type ℓ} where
  abbrev pub IsBusy : (ℕ → Entry V) → ℕ → Type 0
  IsBusy e i = (e i).hash == 0 ≡ false

  -- A slot of the table that holds an entry; the slot `hole` does not count.
  pub record IsLive (c : ℕ) (e : ℕ → Entry V) (hole i : ℕ) : Type 0 where
    pub within : i < c
    pub busy : IsBusy e i
    pub apart : i == hole ≡ false

  abbrev pub home : ℕ → Entry V → ℕ
  home k x = bit_and 32 x.hash (ones k)

  -- What a table of 2 ^ k slots keeps: entries have the hash of their key, the slots on the way
  -- from the home of an entry to it are taken, and no two entries have the same key.
  pub record IsTable (k : ℕ) (e : ℕ → Entry V) (hole : ℕ) : Type ℓ where
    pub hashed : (i : ℕ) → IsLive (pow_two k) e hole i → (e i).hash ≡ hash_of (e i).key
    pub reach :
        (i d : ℕ)
        → IsLive (pow_two k) e hole i
        → d < dist (pow_two k) (home k (e i)) i
        → IsBusy e (at (pow_two k) (home k (e i)) d)
    pub unique :
        (i j : ℕ)
        → IsLive (pow_two k) e hole i
        → IsLive (pow_two k) e hole j
        → (e i).key ≡ (e j).key
        → i ≡ j

  -- The first slot from h on that is empty or passes a test.
  pub record Probe (c : ℕ) (e : ℕ → Entry V) (p : Entry V → Bool) (h : ℕ) : Type 0 where
    pub away : ℕ
    pub inside : away < c
    pub passed : (d : ℕ) → d < away → IsBusy e (at c h d) × (p (e (at c h d)) ≡ false)
    pub stop :
        ((e (at c h away)).hash == 0 ≡ true)
        ⊎ (IsBusy e (at c h away) × (p (e (at c h away)) ≡ true))

  module _ (c : ℕ) (e : ℕ → Entry V) (p : Entry V → Bool) (h f : ℕ) (h_lt : h < c) (f_lt : f < c)
      (free : (e f).hash == 0 ≡ true) where
    Passed : ℕ → Type 0
    Passed n = (d : ℕ) → d < n → IsBusy e (at c h d) × (p (e (at c h d)) ≡ false)

    pass_on : (n : ℕ) → Passed n → IsBusy e (at c h n) → p (e (at c h n)) ≡ false → Passed (suc n)
    unfolding Passed
    pass_on n old b q d l = elim (Bool-cases (d == n)) [
      | inl same ↦ let s : d ≡ n = (==_iff d n).0 same in rw s (b, q)
      | inr other ↦ old d (ground arith)
    ]

    Probe-from : (m d : ℕ) → d + m ≡ dist c h f → Passed d → Probe c e p h
    unfolding Passed
    Probe-from zero d s old = record {
      away = d;
      inside = omega (arith, dist-lt c h h_lt f f_lt);
      passed = old;
      stop = inl (let q : d ≡ dist c h f = omega arith in rw (q, at-dist c h h_lt f f_lt) free);
    }
    Probe-from (suc m) d s old =
        let l : d < c = omega (arith, dist-lt c h h_lt f f_lt) in
        elim (Bool-cases ((e (at c h d)).hash == 0)) [
          | inl z ↦ record { away = d; inside = l; passed = old; stop = inl z }
          | inr b ↦ elim (Bool-cases (p (e (at c h d)))) [
            | inl y ↦ record { away = d; inside = l; passed = old; stop = inr (b, y) }
            | inr n ↦ Probe-from m (suc d) (omega arith) (pass_on d old b n)
          ]
        ]

    -- A table with an empty slot ends every search.
    pub probe : Probe c e p h
    unfolding Passed
    probe = Probe-from (dist c h f) 0 (omega arith) (λ d l. absurd (omega arith))
