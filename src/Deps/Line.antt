-- ===== src/Deps/Line.antt =====
-- deps.c: where a line of a dependency file is cut.
use mathlib.Core.Option
use autark.Prelude.{
  ℕ, zero, suc, ◌+◌, ◌/◌, ◌%◌, ◌<◌, ◌≡◌, refl, sym, ap, ap₂, ◌⊎◌, inl, inr, true, false, none, some,
  [], ◌∷◌, ◌++◌, arith, length, Bytes, Without, ltb, ◌==◌, if◌then◌else◌, ==_iff, Bool-cases,
  eq_self,
}
use autark.Utils.Text.{chars_replace}
use autark.Deps.{fgets, cut_first, cut_last}
use autark.Deps.Number.{ℤ, pos, negsuc, digits, print_i64}

-- A line that fits is read whole.
pub fgets-line :
    (n : ℕ) (l more : Bytes)
    → Without b'\n' l
    → length l < n
    → fgets n ((l ++ (b'\n' ∷ [])) ++ more) ≡ (l ++ (b'\n' ∷ []), more)
unfolding fgets
fgets-line zero l more w h = absurd (omega arith)
fgets-line (suc n) [] more w h = refl
fgets-line (suc n) (c ∷ l) more w h =
    rw w.0 (ap (λ (r : Bytes × Bytes). (c ∷ r.0, r.1)) (fgets-line n l more w.1 (omega arith)))

pub cut_first-append : (a r : Bytes) → Without 1 a → cut_first (a ++ (1 ∷ r)) ≡ some (a, r)
unfolding cut_first
cut_first-append [] r w = refl
cut_first-append (c ∷ a) r w =
    rw w.0 (ap (Option.map (λ (x : Bytes × Bytes). (c ∷ x.0, x.1))) (cut_first-append a r w.1))

cut_last-Without : (t : Bytes) → Without 1 t → cut_last t ≡ none
unfolding cut_last
cut_last-Without [] w = refl
cut_last-Without (c ∷ t) w = rw (cut_last-Without t w.1, w.0) refl

pub cut_last-append : (r t : Bytes) → Without 1 t → cut_last (r ++ (1 ∷ t)) ≡ some (r, t)
unfolding cut_last
cut_last-append [] t w = rw (cut_last-Without t w) refl
cut_last-append (c ∷ r) t w = rw (cut_last-append r t w) refl

pub replace-append :
    (s t : Bytes) (c r : ℕ)
    → chars_replace (s ++ t) c r ≡ chars_replace s c r ++ chars_replace t c r
unfolding chars_replace
replace-append [] t c r = refl
replace-append (b ∷ s) t c r = ap (λ u. (if b == c then r else b) ∷ u) (replace-append s t c r)

-- Bytes replaced by a byte that does not occur are found again.
pub replace-replace :
    (s : Bytes) (c r : ℕ) → Without r s → chars_replace (chars_replace s c r) r c ≡ s
unfolding chars_replace
replace-replace [] c r w = refl
replace-replace (b ∷ s) c r w = ap₂ ◌∷◌ (back b c r w.0) (replace-replace s c r w.1)
  where
    back :
        (b c r : ℕ)
        → (b == r) ≡ false
        → (if (if b == c then r else b) == r then c else (if b == c then r else b)) ≡ b
    back b c r h = elim (Bool-cases (b == c)) [
      | inl e ↦ rw (e, eq_self r) (sym ((==_iff b c).0 e))
      | inr n ↦ rw (n, h) refl
    ]

pub replace-Without : (s : Bytes) (c r : ℕ) → Without c s → chars_replace s c r ≡ s
unfolding chars_replace
replace-Without [] c r w = refl
replace-Without (b ∷ s) c r w = rw w.0 (ap (λ t. b ∷ t) (replace-Without s c r w.1))

pub replaced-Without : (s : Bytes) (c r : ℕ) → (r == c) ≡ false → Without c (chars_replace s c r)
unfolding chars_replace
replaced-Without [] c r n = tt
replaced-Without (b ∷ s) c r n = (gone (Bool-cases (b == c)), replaced-Without s c r n)
  where
    gone : ((b == c) ≡ true) ⊎ ((b == c) ≡ false) → ((if b == c then r else b) == c) ≡ false
    gone (inl e) = rw e n
    gone (inr m) = rw (m, m) refl

pub length-replace : (s : Bytes) (c r : ℕ) → length (chars_replace s c r) ≡ length s
unfolding chars_replace
length-replace [] c r = refl
length-replace (b ∷ s) c r = ap (λ n. suc n) (length-replace s c r)

pub Without-append : (b : ℕ) (s t : Bytes) → Without b s → Without b t → Without b (s ++ t)
Without-append b [] t w v = v
Without-append b (c ∷ s) t w v = (w.0, Without-append b s t w.1 v)

-- A byte that is no digit does not occur in a number.
digits-Without : (b fuel n : ℕ) → b < 48 ⊎ (57 < b) → Without b (digits fuel n)
unfolding digits
digits-Without b zero n h = tt
digits-Without b (suc fuel) n h = elim (Bool-cases (ltb n 10)) [
  | inl small ↦ rw small (ground arith, tt)
  | inr big ↦ rw big (
      Without-append b (digits fuel (n / 10)) ((48 + n % 10) ∷ [])
        (digits-Without b fuel (n / 10) h) (other b (n % 10) (omega arith) h, tt))
]
  where
    other : (b d : ℕ) → d < 10 → b < 48 ⊎ (57 < b) → ((48 + d) == b) ≡ false
    other b d l h = ground arith

pub print-Without : (b : ℕ) (z : ℤ) → b < 45 → Without b (print_i64 z)
unfolding print_i64
print-Without b (pos n) h = digits-Without b (n + 1) n (inl (omega arith))
print-Without b (negsuc n) h =
    (ground arith, digits-Without b (n + 1 + 1) (n + 1) (inl (omega arith)))
