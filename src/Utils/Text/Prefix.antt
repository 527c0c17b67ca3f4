-- ===== src/Utils/Text/Prefix.antt =====
-- utils.h: the tests on the ends of a string decide what they are for, and copies are bounded.
use autark.Prelude.{
  ℕ, suc, ◌+◌, ◌-◌, ◌≡◌, refl, sym, ap, ap₂, ◌∙◌, ◌↔◌, true, false, some, [], ◌∷◌, ◌++◌, arith,
  length, take, drop, length-append, drop-append, take-append-drop, length-take, Bytes, str_eq,
  str_eq_refl, str_eq_iff, ltb,
}
use autark.Utils.Text.{strncmp_eq, startswith, endswith}

strncmp-prefix : (p r : Bytes) → strncmp_eq (length p) (p ++ r) p ≡ true
unfolding strncmp_eq
strncmp-prefix [] r = refl
strncmp-prefix (c ∷ p) r = ground (arith, strncmp-prefix p r)

strncmp→prefix : (p s : Bytes) → strncmp_eq (length p) s p ≡ true → (r : Bytes) × (s ≡ p ++ r)
unfolding strncmp_eq
strncmp→prefix [] s h = (s, refl)
strncmp→prefix (c ∷ p) [] h = cc
strncmp→prefix (c ∷ p) (d ∷ s) h =
    let (r, e) = strncmp→prefix p s (ground arith) in
    (r, ap₂ ◌∷◌ (let q : d ≡ c = ground arith in q) e)

-- startswith accepts exactly the strings that are the prefix followed by something.
pub startswith_iff :
    (s p : Bytes) → (startswith (some s) (some p) ≡ true) ↔ ((r : Bytes) × (s ≡ p ++ r))
unfolding startswith
startswith_iff s p = (
  λ h. strncmp→prefix p s (ground arith),
  λ (r, e). rw e (ground (arith, length-append p r, strncmp-prefix p r)),
)

endswith_parts :
    (s p : Bytes) (n : ℕ)
    → endswith (some s) (some p) ≡ suc n
    → (length s ≡ n + length p) × (str_eq (drop n s) p ≡ true)
unfolding endswith
endswith_parts s p n h = let e : n ≡ length s - length p = ground arith in rw e (ground arith)

endswith-append : (r p : Bytes) → endswith (some (r ++ p)) (some p) ≡ length r + 1
unfolding endswith
endswith-append r p =
    let e : length (r ++ p) - length p ≡ length r = omega (arith, length-append r p) in
    let fits : ltb (length (r ++ p)) (length p) ≡ false = ground (arith, length-append r p) in
    rw (fits, e, drop-append (length r) r p refl, str_eq_refl p)

-- endswith answers one more than the place at which the string is cut in front of the suffix, and
-- answers so exactly if there is such a place.
pub endswith_iff :
    (s p : Bytes) (n : ℕ)
    → (endswith (some s) (some p) ≡ suc n) ↔ ((r : Bytes) × (s ≡ r ++ p) × (length r ≡ n))
endswith_iff s p n = (
  λ h.
      let (l, e) = endswith_parts s p n h in
      (
        take n s,
        sym (take-append-drop n s) ∙ ap (λ t. take n s ++ t) ((str_eq_iff (drop n s) p).0 e),
        length-take n s (omega arith),
      ),
  λ (r, e, l). rw e (endswith-append r p ∙ omega arith),
)
