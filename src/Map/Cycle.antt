-- ===== src/Map/Cycle.antt =====
-- map.c: slots of a table in the order of probing, and what its masks compute.
use autark.Prelude.{
  ℕ, zero, suc, ◌+◌, ◌-◌, ◌*◌, ◌/◌, ◌%◌, ◌^◌, ◌≤◌, ◌<◌, ◌≡◌, refl, sym, ap, ap₂, ◌∙◌, inl, inr,
  arith, ltb, leb, ◌==◌, if◌then◌else◌, Bool-cases,
}
use autark.Map.Table.{bit_and, next_slot}
use autark.Map.{on_path}

-- The numbers of slots that a table can have.
unfoldable pub pow_two : ℕ → ℕ
pow_two zero = 1
pow_two (suc k) = 2 * pow_two k

unfoldable pub ones : ℕ → ℕ
ones zero = 0
ones (suc k) = 1 + 2 * ones k

pub ones_lem : (k : ℕ) → ones k + 1 ≡ pow_two k
unfolding ones pow_two
ones_lem zero = refl
ones_lem (suc k) = omega (arith, ones_lem k)

pub pow_two_pos : (k : ℕ) → 0 < pow_two k
pow_two_pos k = omega (arith, ones_lem k)

bit_product : (a b : ℕ) → a % 2 * (b % 2) ≤ b % 2
bit_product a b = grind arith

pub bit_and-le : (n a b : ℕ) → bit_and n a b ≤ b
unfolding bit_and
bit_and-le zero a b = omega arith
bit_and-le (suc n) a b = omega (arith, bit_product a b, bit_and-le n (a / 2) (b / 2))

bit_and_odd : (n x m : ℕ) → bit_and (suc n) x (1 + 2 * m) ≡ x % 2 + 2 * bit_and n (x / 2) m
unfolding bit_and
bit_and_odd n x m =
    let b : (1 + 2 * m) % 2 ≡ 1 = omega arith in
    let h : (1 + 2 * m) / 2 ≡ m = omega arith in rw (b, h) (omega arith)

bit_and-zero : (n x : ℕ) → bit_and n x 0 ≡ 0
bit_and-zero n x = omega (arith, bit_and-le n x 0)

bit_and_small : (n k x : ℕ) → k ≤ n → x < pow_two k → bit_and n x (ones k) ≡ x
unfolding ones pow_two
bit_and_small n zero x h l = omega (arith, bit_and-zero n x)
bit_and_small zero (suc k) x h l = absurd (omega arith)
bit_and_small (suc n) (suc k) x h l =
    omega (arith, bit_and_odd n x (ones k), bit_and_small n k (x / 2) (omega arith) (omega arith))

twice_times : (q p : ℕ) → q * (2 * p) ≡ 2 * (q * p)
twice_times q p = grind arith

halve_shift : (x t : ℕ) → ((x + 2 * t) % 2 ≡ x % 2) × ((x + 2 * t) / 2 ≡ x / 2 + t)
halve_shift x t = omega arith

bit_and_none : (a b : ℕ) → bit_and 0 a b ≡ 0
unfolding bit_and
bit_and_none a b = refl

bit_and_shift : (n k q x : ℕ) → bit_and n (x + q * pow_two k) (ones k) ≡ bit_and n x (ones k)
unfolding ones pow_two
bit_and_shift n zero q x = bit_and-zero n (x + q * 1) ∙ sym (bit_and-zero n x)
bit_and_shift zero (suc k) q x = omega (
  arith,
  bit_and_none (x + q * (2 * pow_two k)) (1 + 2 * ones k),
  bit_and_none x (1 + 2 * ones k),
)
bit_and_shift (suc n) (suc k) q x =
    let (b, h) = halve_shift x (q * pow_two k) in
    rw (twice_times q (pow_two k), bit_and_odd n (x + 2 * (q * pow_two k)) (ones k), b, h)
      (omega (arith, bit_and_odd n x (ones k), bit_and_shift n k q (x / 2)))

pow_two_add : (j k : ℕ) → pow_two j * pow_two k ≡ pow_two (j + k)
unfolding pow_two
pow_two_add zero k = grind (arith)
pow_two_add (suc j) k =
    let e : suc j + k ≡ suc (j + k) = omega arith in rw e (grind (arith, pow_two_add j k))

pub pow_two_top : pow_two 32 ≡ 2 ^ 32
unfolding pow_two
pow_two_top = refl

-- A number of slots divides the number of values of a word.
word_slots : (k : ℕ) → k ≤ 32 → pow_two (32 - k) * pow_two k ≡ 2 ^ 32
word_slots k h =
    let e : 32 - k + k ≡ 32 = omega arith in pow_two_add (32 - k) k ∙ ap pow_two e ∙ pow_two_top

pow_two_31 : pow_two 31 ≡ 2 ^ 31
unfolding pow_two
pow_two_31 = refl

times_le : (q p : ℕ) → 0 < q → p ≤ q * p
times_le q p h = grind arith

pub pow_two_mono : (k m : ℕ) → k ≤ m → pow_two k ≤ pow_two m
pow_two_mono k m h =
    let e : m - k + k ≡ m = omega arith in
    let l : pow_two k ≤ pow_two (m - k) * pow_two k =
      times_le (pow_two (m - k)) (pow_two k) (pow_two_pos (m - k)) in
    omega (arith, pow_two_add (m - k) k ∙ ap pow_two e)

times_pred : (q p w : ℕ) → 0 < q → q * p ≡ w → (q - 1) * p ≡ w - p
times_pred zero p w l h = absurd (omega arith)
times_pred (suc q) p w l h = let e : suc q - 1 ≡ q = omega arith in rw e (grind arith)

words_less : (k : ℕ) → k ≤ 32 → (pow_two (32 - k) - 1) * pow_two k ≡ 2 ^ 32 - pow_two k
words_less k h =
    times_pred (pow_two (32 - k)) (pow_two k) (2 ^ 32) (pow_two_pos (32 - k)) (word_slots k h)

-- The slot behind i, the slot d behind h, and how far i is behind h.
abbrev pub next : ℕ → ℕ → ℕ
next c i = if suc i == c then 0 else suc i

abbrev pub at : ℕ → ℕ → ℕ → ℕ
at c h d = if ltb (h + d) c then h + d else h + d - c

abbrev pub dist : ℕ → ℕ → ℕ → ℕ
dist c h i = if leb h i then i - h else i + c - h

module _ (k : ℕ) (fits : k ≤ 31) where
  word_le : pow_two k ≤ 2 ^ 31
  word_le = omega (arith, pow_two_mono k 31 fits, pow_two_31)

  pub pow_two_masked : bit_and 32 (pow_two k) (ones k) ≡ 0
  pow_two_masked =
      let e : pow_two k ≡ 0 + 1 * pow_two k = omega arith in
      rw e (bit_and_shift 32 k 1 0 ∙ bit_and_small 32 k 0 (omega arith) (pow_two_pos k))

  -- A difference of words, masked, is a distance between slots.
  masked_dist :
      (a b : ℕ)
      → a < pow_two k
      → b < pow_two k
      → bit_and 32 ((a + 2 ^ 32 - b) % 2 ^ 32) (ones k) ≡ dist (pow_two k) b a
  masked_dist a b l m = elim (Bool-cases (leb b a)) [
    | inl e ↦
        let d : (a + 2 ^ 32 - b) % 2 ^ 32 ≡ a - b = ground (arith, word_le) in
        rw (e, d) (bit_and_small 32 k (a - b) (omega arith) (omega arith))
    | inr e ↦
        let d : (a + 2 ^ 32 - b) % 2 ^ 32 ≡ (a + pow_two k - b) + (2 ^ 32 - pow_two k) =
          ground (arith, word_le) in
        rw
          (
            e,
            d,
            sym (words_less k (omega arith)),
            bit_and_shift 32 k (pow_two (32 - k) - 1) (a + pow_two k - b),
          )
          (bit_and_small 32 k (a + pow_two k - b) (omega arith) (ground arith))
  ]

  pub bit_and-lt : (x : ℕ) → bit_and 32 x (ones k) < pow_two k
  bit_and-lt x = omega (arith, bit_and-le 32 x (ones k), ones_lem k)

  pub next_slot_lem : (i : ℕ) → i < pow_two k → next_slot (ones k) i ≡ next (pow_two k) i
  unfolding next_slot
  next_slot_lem i l = elim (Bool-cases (suc i == pow_two k)) [
    | inl e ↦
        let s : (i + 1) % 2 ^ 32 ≡ 0 + 1 * pow_two k = ground (arith, word_le) in
        rw (e, s, bit_and_shift 32 k 1 0) (bit_and_small 32 k 0 (omega arith) (pow_two_pos k))
    | inr e ↦
        let s : (i + 1) % 2 ^ 32 ≡ suc i = ground (arith, word_le) in
        rw (e, s) (bit_and_small 32 k (suc i) (omega arith) (ground arith))
  ]

  pub on_path_lem :
      (home hole i : ℕ)
      → home < pow_two k
      → hole < pow_two k
      → i < pow_two k
      → on_path (ones k) home hole i ≡ leb (dist (pow_two k) home hole) (dist (pow_two k) home i)
  unfolding on_path
  on_path_lem home hole i a b c = ap₂ leb (masked_dist hole home b a) (masked_dist i home c a)
