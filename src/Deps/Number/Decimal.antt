-- ===== src/Deps/Number/Decimal.antt =====
-- utils.c: a number that is printed is read back.
use autark.Prelude.{
  ℕ, zero, suc, ◌+◌, ◌-◌, ◌*◌, ◌/◌, ◌%◌, ◌^◌, ◌<◌, ◌≡◌, refl, sym, ap, ◌∙◌, ◌≢◌, inl, inr, Bool,
  true, false, some, [], ◌∷◌, ◌++◌, arith, Bytes, ltb, leb, ◌==◌, Bool-cases,
}
use autark.Utils.Text.{char_is_space}
use autark.Utils.Words.{skip_spaces}
use autark.Deps.Number.{
  ℤ, pos, negsuc, digits, print_i64, is_digit, scan_digits, sign, begins_with_digit, ends_number,
  in_range, strtoll, read_number, signed_number,
}

scan_digits-append :
    (s t : Bytes) (n m : ℕ) → scan_digits n s ≡ (m, []) → scan_digits n (s ++ t) ≡ scan_digits m t
unfolding scan_digits
scan_digits-append [] t n m h = ap (λ (r : ℕ × Bytes). scan_digits r.0 t) h
scan_digits-append (c ∷ s) t n m h = elim (Bool-cases (is_digit c)) [
  | inl d ↦ rw d (scan_digits-append s t (n * 10 + (c - b'0')) m (rw d at h))
  | inr o ↦
      let e : c ∷ s ≡ [] = ap (λ (r : ℕ × Bytes). r.1) (rw o at h) in absurd (cons_not_nil c s e)
]
  where
    cons_not_nil : (c : ℕ) (s : Bytes) → c ∷ s ≢ []
    cons_not_nil c s = λ e. cc

digit_is_digit : (d : ℕ) → d < 10 → is_digit (48 + d) ≡ true
unfolding is_digit
digit_is_digit d h = ground arith

scan_digit :
    (m d : ℕ) (s : Bytes) → d < 10 → scan_digits m ((48 + d) ∷ s) ≡ scan_digits (m * 10 + d) s
unfolding scan_digits
scan_digit m d s h = let e : 48 + d - 48 ≡ d = omega arith in rw (digit_is_digit d h, e) refl

scan_digits-digits : (fuel n : ℕ) → n < fuel → scan_digits 0 (digits fuel n) ≡ (n, [])
unfolding digits
scan_digits-digits zero n h = absurd (omega arith)
scan_digits-digits (suc fuel) n h = elim (Bool-cases (ltb n 10)) [
  | inl small ↦ rw small (
      scan_digit 0 n [] (ground arith)
      ∙ ap (λ (k : ℕ). scan_digits k []) (let e : 0 * 10 + n ≡ n = omega arith in e)
      ∙ unfold scan_digits in refl)
  | inr big ↦
      let front = scan_digits-digits fuel (n / 10) (ground arith) in
      let whole : n / 10 * 10 + n % 10 ≡ n = omega arith in
      rw big (
        scan_digits-append (digits fuel (n / 10)) ((48 + n % 10) ∷ []) 0 (n / 10) front
        ∙ scan_digit (n / 10) (n % 10) [] (omega arith)
        ∙ unfold scan_digits in (ap (λ (k : ℕ). (k, [])) whole))
]

-- A number is printed with a digit in front.
digits_head :
    (fuel n : ℕ) → n < fuel → (d : ℕ) × (r : Bytes) × (digits fuel n ≡ d ∷ r) × (is_digit d ≡ true)
unfolding digits
digits_head zero n h = absurd (omega arith)
digits_head (suc fuel) n h = elim (Bool-cases (ltb n 10)) [
  | inl small ↦ (48 + n, [], rw small refl, digit_is_digit n (ground arith))
  | inr big ↦
      let (d, r, e, k) = digits_head fuel (n / 10) (ground arith) in
      (d, r ++ ((48 + n % 10) ∷ []), rw big (ap (λ t. t ++ ((48 + n % 10) ∷ [])) e), k)
]

-- A number and a line end behind it.
number_line : (n : ℕ) → scan_digits 0 (digits (n + 1) n ++ (b'\n' ∷ [])) ≡ (n, b'\n' ∷ [])
number_line n =
    scan_digits-append (digits (n + 1) n) (b'\n' ∷ []) 0 n
      (scan_digits-digits (n + 1) n (omega arith))
    ∙ unfold scan_digits is_digit in refl

digit_no_space : (d : ℕ) (s : Bytes) → is_digit d ≡ true → skip_spaces (d ∷ s) ≡ d ∷ s
unfolding skip_spaces is_digit char_is_space
digit_no_space d s h = ground arith

digit_no_sign : (d : ℕ) (s : Bytes) → is_digit d ≡ true → sign (d ∷ s) ≡ (false, d ∷ s)
unfolding sign is_digit
digit_no_sign d s h = ground arith

begins_digits : (n : ℕ) (t : Bytes) → begins_with_digit (digits (n + 1) n ++ t) ≡ true
begins_digits n t =
    let (d, r, e, k) = digits_head (n + 1) n (omega arith) in
    ap (λ s. begins_with_digit (s ++ t)) e ∙ unfold begins_with_digit in k

signed_digits :
    (w : Bytes) (negative : Bool) (n : ℕ)
    → signed_number w (negative, digits (n + 1) n ++ (b'\n' ∷ [])) ≡ in_range negative n
unfolding signed_number
signed_digits w negative n =
    rw (begins_digits n (b'\n' ∷ []), number_line n) (unfold read_number ends_number in refl)

-- An integer that an int64_t holds.
abbrev pub InRange : ℤ → Type 0
InRange (pos n) = n < 2 ^ 63
InRange (negsuc n) = n < 2 ^ 63

positive_text :
    (n : ℕ)
    → sign (skip_spaces (digits (n + 1) n ++ (b'\n' ∷ [])))
      ≡ (false, digits (n + 1) n ++ (b'\n' ∷ []))
positive_text n =
    let (d, r, e, k) = digits_head (n + 1) n (omega arith) in
    let t = r ++ (b'\n' ∷ []) in
    let whole : digits (n + 1) n ++ (b'\n' ∷ []) ≡ d ∷ t = ap (λ s. s ++ (b'\n' ∷ [])) e in
    ap (λ s. sign (skip_spaces s)) whole
    ∙ ap sign (digit_no_space d t k)
    ∙ digit_no_sign d t k
    ∙ ap (λ (s : Bytes). (false, s)) (sym whole)

negative_text :
    (n : ℕ)
    → sign (skip_spaces (b'-' ∷ (digits (n + 1) n ++ (b'\n' ∷ []))))
      ≡ (true, digits (n + 1) n ++ (b'\n' ∷ []))
unfolding sign skip_spaces char_is_space
negative_text n = refl

negative_range : (n : ℕ) → n < 2 ^ 63 → in_range true (n + 1) ≡ some (negsuc n)
unfolding in_range
negative_range n h =
    let positive : (n + 1 == 0) ≡ false = ground arith in
    let fits : leb (n + 1) (2 ^ 63) ≡ true = ground arith in
    let same : n + 1 - 1 ≡ n = omega arith in rw (positive, fits, same) refl

-- A number printed at the end of a line is read back, if an int64_t holds it.
pub strtoll-print : (z : ℤ) → InRange z → strtoll (print_i64 z ++ (b'\n' ∷ [])) ≡ some z
unfolding strtoll print_i64
strtoll-print (pos n) h =
    let v = digits (n + 1) n ++ (b'\n' ∷ []) in
    ap (signed_number v) (positive_text n)
    ∙ signed_digits v false n
    ∙ unfold in_range in ground arith
strtoll-print (negsuc n) h =
    let v = b'-' ∷ (digits (n + 1 + 1) (n + 1) ++ (b'\n' ∷ [])) in
    ap (signed_number v) (negative_text (n + 1)) ∙ signed_digits v true (n + 1) ∙ negative_range n h
