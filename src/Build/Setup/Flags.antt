-- ===== src/Build/Setup/Flags.antt =====
-- script.c: the flags of nodes as node_setup sets them, and how many are left.
use autark.Prelude.{
  ℕ, zero, suc, ◌+◌, ◌≤◌, ◌<◌, ◌≡◌, refl, inl, inr, Bool, true, false, ◌||◌, List, [], ◌∷◌, arith,
  ◌==◌, if◌then◌else◌, ==_iff, Bool-cases,
}
use autark.Build.{Pass, put_flag}
use autark.Build.Setup.{some_below}
use autark.Build.Invariant.{In}

pub put_grows : (f : ℕ → Bool) (n k : ℕ) → f k ≡ true → put_flag f n k ≡ true
put_grows f n k p = elim (Bool-cases (k == n)) [ inl y ↦ rw y refl | inr o ↦ rw o p ]

pub put_unset : (f : ℕ → Bool) (n k : ℕ) → put_flag f n k ≡ false → f k ≡ false
put_unset f n k p = elim (Bool-cases (k == n)) [
  | inl y ↦ (let h : true ≡ false = rw y at p in absurd (cc h))
  | inr o ↦ rw o at p
]

pub nothing_below :
    (cs : List ℕ) (b : Bool) → (some_below cs || b) ≡ false → ((m : ℕ) → In m cs → ⊥) × (b ≡ false)
nothing_below [] b h = (λ m x. x, h)
nothing_below (c ∷ cs) b h = absurd (cc h)

pub ne_flip : (k n : ℕ) → k == n ≡ false → n == k ≡ false
ne_flip k n o = ground arith

pub passed_apart : (s : Pass) (n k : ℕ) → s.passed n ≡ true → s.passed k ≡ false → k == n ≡ false
passed_apart s n k p q = elim (Bool-cases (k == n)) [
  | inl y ↦ (let p' : s.passed k ≡ true = rw ((==_iff k n).0 y) p in absurd (cc (p', q)))
  | inr o ↦ o
]

pub apart_passed : (s : Pass) (n k : ℕ) → s.passed n ≡ false → s.passed k ≡ true → k == n ≡ false
apart_passed s n k p q = elim (Bool-cases (k == n)) [
  | inl y ↦ (let p' : s.passed k ≡ false = rw ((==_iff k n).0 y) p in absurd (cc (p', q)))
  | inr o ↦ o
]

-- The nodes without the flag.
unfoldable pub unset : (ℕ → Bool) → ℕ → ℕ
unset f zero = 0
unset f (suc n) = (if f n then 0 else 1) + unset f n

pub unset_falls :
    (f g : ℕ → Bool) (n : ℕ) → ((k : ℕ) → f k ≡ true → g k ≡ true) → unset g n ≤ unset f n
unfolding unset
unset_falls f g zero h = omega arith
unset_falls f g (suc n) h = elim (Bool-cases (f n)) [
  | inl y ↦ rw (y, h n y) (omega (arith, unset_falls f g n h))
  | inr o ↦ rw o (ground (arith, unset_falls f g n h))
]

pub unset-put : (f : ℕ → Bool) (n m : ℕ) → n < m → f n ≡ false → unset (put_flag f n) m < unset f m
unfolding unset
unset-put f n zero l p = absurd (omega arith)
unset-put f n (suc m) l p = elim (Bool-cases (m == n)) [
  | inl y ↦
      let q : f m ≡ false = rw ((==_iff m n).0 y) p in
      rw (y, q) (omega (arith, unset_falls f (put_flag f n) m (put_grows f n)))
  | inr o ↦ rw o (omega (arith, unset-put f n m (ground arith) p))
]

pub unset_all : (count : ℕ) → unset (λ n. false) count ≡ count
unfolding unset
unset_all zero = refl
unset_all (suc n) = omega (arith, unset_all n)
