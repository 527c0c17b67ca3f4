-- ===== src/Map/Count.antt =====
-- map.c: the number of entries in the first slots of a table.
use autark.Prelude.{
  ℕ, zero, suc, ◌+◌, ◌≤◌, ◌<◌, ◌≡◌, refl, ap, inl, inr, true, false, arith, ◌==◌, if◌then◌else◌,
  ==_iff, Bool-cases,
}
use autark.Map.Table.{Entry, set_slot, empty_slot}

module _ {ℓ} {V : Type ℓ} where
  abbrev pub weight : Entry V → ℕ
  weight x = if x.hash == 0 then 0 else 1

  unfoldable pub busy_count : (ℕ → Entry V) → ℕ → ℕ
  busy_count e zero = 0
  busy_count e (suc n) = weight (e n) + busy_count e n

  pub busy_count_step :
      (e : ℕ → Entry V) (n : ℕ) → busy_count e (suc n) ≡ weight (e n) + busy_count e n
  unfolding busy_count
  busy_count_step e n = refl

  pub busy_count-le : (e : ℕ → Entry V) (n : ℕ) → busy_count e n ≤ n
  unfolding busy_count
  busy_count-le e zero = omega arith
  busy_count-le e (suc n) = ground (arith, busy_count-le e n)

  -- A table that is not full has an empty slot.
  pub free_of_count :
      (e : ℕ → Entry V) (n : ℕ) → busy_count e n < n → (f : ℕ) × (f < n) × ((e f).hash == 0 ≡ true)
  unfolding busy_count
  free_of_count e zero h = absurd (omega arith)
  free_of_count e (suc n) h = elim (Bool-cases ((e n).hash == 0)) [
    | inl z ↦ (n, omega arith, z)
    | inr b ↦ let (f, l, z) = free_of_count e n (ground arith) in (f, omega arith, z)
  ]

  busy_count-set_out :
      (e : ℕ → Entry V) (i : ℕ) (x : Entry V) (n : ℕ)
      → n ≤ i
      → busy_count (set_slot e i x) n ≡ busy_count e n
  unfolding busy_count
  busy_count-set_out e i x zero h = refl
  busy_count-set_out e i x (suc n) h =
      let f : n == i ≡ false = ground arith in
      rw f (ap (λ s. weight (e n) + s) (busy_count-set_out e i x n (omega arith)))

  -- A write to a slot changes the number by what it changes in the slot.
  pub busy_count-set :
      (e : ℕ → Entry V) (i : ℕ) (x : Entry V) (n : ℕ)
      → i < n
      → busy_count (set_slot e i x) n + weight (e i) ≡ busy_count e n + weight x
  unfolding busy_count
  busy_count-set e i x zero h = absurd (omega arith)
  busy_count-set e i x (suc n) h = elim (Bool-cases (n == i)) [
    | inl y ↦
        let q : n ≡ i = (==_iff n i).0 y in
        rw y (rw q (omega (arith, busy_count-set_out e i x i (omega arith))))
    | inr z ↦ rw z (omega (arith, busy_count-set e i x n (ground arith)))
  ]

pub busy_count-none {ℓ} : (V : Type ℓ) (n : ℕ) → busy_count {V = V} (λ i. empty_slot) n ≡ 0
unfolding busy_count
busy_count-none V zero = refl
busy_count-none V (suc n) = omega (arith, busy_count-none V n)

pub busy_count_mono {ℓ} :
    {V : Type ℓ} (e : ℕ → Entry V) (a b : ℕ) → a ≤ b → busy_count e a ≤ busy_count e b
unfolding busy_count
busy_count_mono e a zero h = let q : a ≡ 0 = omega arith in rw q (omega arith)
busy_count_mono e a (suc b) h = elim (Bool-cases (a == suc b)) [
  | inl y ↦ rw ((==_iff a (suc b)).0 y) (omega arith)
  | inr n ↦ omega (arith, busy_count_mono e a b (ground arith))
]
