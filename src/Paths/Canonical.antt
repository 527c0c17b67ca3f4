-- ===== src/Paths/Canonical.antt =====
-- paths.c: the fast path of path_normalize_cwd agrees with the loop, and normal forms stay as they
-- are.
use mathlib.Core.List.{reverse_aux, reverse-reverse}
use mathlib.Core.Path.{subst}
use autark.Prelude.{
  ℕ, zero, suc, ◌+◌, ◌<◌, ◌≡◌, refl, sym, ap, ◌∙◌, ◌≢◌, inl, inr, Bool, true, false, not, ◌&&◌,
  ◌||◌, Option, none, some, List, [], ◌∷◌, ◌++◌, reverse, arith, length, take, drop,
  take-append-drop, drop-nil, nonempty, item_len, segments, words, encode, IsItem, words-encode,
  length-drop_item, drop_item_cases, cut_first-IsItem, Bytes, str_eq, All, ltb, ◌==◌, ==_iff,
  Bool-cases,
}
use autark.Paths.{
  slash, dot, dot_dot, at_end, at_dot, at_dot_dot, at_slash, needs_normalize_from, ends_in_slash,
  path_needs_normalize, push_segment, path_of_segments, path_is_absolute, path_absolutize, written,
  normalize_split, normalize_buf, normalize_fitting, path_normalize_cwd,
}
use autark.Paths.Normalize.{IsName, push_all, push_all-cons, segments_loop-push_all}

-- The segments of a path in the order of the path, with "." and ".." resolved.
unfoldable pub resolve : Bytes → List Bytes
resolve path = push_all [] (words slash path)

push_segment-name : (x : Bytes) (stack : List Bytes) → IsName x → push_segment x stack ≡ x ∷ stack
unfolding push_segment
push_segment-name x stack (item, e, f) = rw (e, f)

push_all-names : (xs stack : List Bytes) → All IsName xs → push_all stack xs ≡ reverse_aux xs stack
push_all-names [] stack all = unfold push_all in refl
push_all-names (x ∷ xs) stack all =
    push_all-cons x xs stack
    ∙ ap (λ t. push_all t xs) (push_segment-name x stack all.0)
    ∙ push_all-names xs (x ∷ stack) all.1

names-items : (xs : List Bytes) → All IsName xs → All (IsItem slash) xs
names-items [] all = tt
names-items (x ∷ xs) all = (all.0.0, names-items xs all.1)

-- The test of a segment, seen from its front.
empty_item : (s : Bytes) → str_eq (take (item_len slash s) s) [] ≡ at_end s
unfolding at_end item_len str_eq
empty_item [] = refl
empty_item (c ∷ s) = ground arith

dot_item : (s : Bytes) → str_eq (take (item_len slash s) s) dot ≡ at_dot s
unfolding at_dot item_len str_eq
dot_item [] = refl
dot_item (c ∷ s) = elim (Bool-cases (c == slash)) [
  | inl e ↦ rw e (ground arith)
  | inr e ↦ rw (e, empty_item s) refl
]

dot_dot_item : (s : Bytes) → str_eq (take (item_len slash s) s) dot_dot ≡ at_dot_dot s
unfolding at_dot_dot item_len str_eq
dot_dot_item [] = refl
dot_dot_item (c ∷ s) = elim (Bool-cases (c == slash)) [
  | inl e ↦ rw e (ground arith)
  | inr e ↦ rw e (ap (λ b. c == b'.' && b) (unfold str_eq in dot_item s))
]

quiet_parts :
    (r : Bytes)
    → needs_normalize_from (slash ∷ r) ≡ false
    → (at_slash r ≡ false)
      × (at_dot r ≡ false)
      × (at_dot_dot r ≡ false)
      × (needs_normalize_from r ≡ false)
unfolding needs_normalize_from
quiet_parts r h = ground arith

-- The first segment of a text that needs no work is a name.
first_IsName :
    (c : ℕ) (s : Bytes)
    → needs_normalize_from (slash ∷ c ∷ s) ≡ false
    → IsName (take (item_len slash (c ∷ s)) (c ∷ s)) × ((c == slash) ≡ false)
unfolding at_slash
first_IsName c s h =
    let (no_slash, no_dot, no_dot_dot, rest) = quiet_parts (c ∷ s) h in
    (
      (
        cut_first-IsItem slash c s no_slash,
        dot_item (c ∷ s) ∙ no_dot,
        dot_dot_item (c ∷ s) ∙ no_dot_dot,
      ),
      no_slash,
    )

needs_normalize-drop :
    (n : ℕ) (s : Bytes) → needs_normalize_from s ≡ false → needs_normalize_from (drop n s) ≡ false
unfolding needs_normalize_from
needs_normalize-drop zero s h = h
needs_normalize-drop (suc n) [] h = refl
needs_normalize-drop (suc n) (c ∷ s) h = needs_normalize-drop n s (ground arith)

ends_in_slash-drop :
    (n : ℕ) (s : Bytes) → ends_in_slash s ≡ false → ends_in_slash (drop n s) ≡ false
unfolding ends_in_slash
ends_in_slash-drop zero s h = h
ends_in_slash-drop (suc n) [] h = refl
ends_in_slash-drop (suc n) (c ∷ []) h = rw (drop-nil {A = ℕ} n)
ends_in_slash-drop (suc n) (c ∷ d ∷ s) h = ends_in_slash-drop n (d ∷ s) h

open_slash :
    (t : Bytes)
    → ends_in_slash (slash ∷ t) ≡ false
    → (d : ℕ) × (r : Bytes) × (t ≡ d ∷ r) × (ends_in_slash (d ∷ r) ≡ false)
unfolding ends_in_slash
open_slash [] h = cc
open_slash (d ∷ r) h = (d, r, refl, h)

-- A text that needs no work is a chain of names.
clean_names :
    (fuel c : ℕ) (s : Bytes)
    → length s < fuel
    → needs_normalize_from (slash ∷ c ∷ s) ≡ false
    → ends_in_slash (c ∷ s) ≡ false
    → (x : Bytes) × (xs : List Bytes) × (slash ∷ c ∷ s ≡ encode slash (x ∷ xs))
      × All IsName (x ∷ xs)
unfolding encode
clean_names zero c s h quiet open_end = elim h [ ]
clean_names (suc fuel) c s h quiet open_end =
    let n = item_len slash (c ∷ s) in
    let x = take n (c ∷ s) in
    let (name, no_slash) = first_IsName c s quiet in
    let cut : slash ∷ c ∷ s ≡ slash ∷ (x ++ drop n (c ∷ s)) =
      ap (λ t. slash ∷ t) (sym (take-append-drop n (c ∷ s))) in
    let quiet' = needs_normalize-drop n (c ∷ s) (quiet_parts (c ∷ s) quiet).3 in
    let open_end' = ends_in_slash-drop n (c ∷ s) open_end in
    elim (drop_item_cases slash (c ∷ s)) [
      | inl none_left ↦ (x, [], cut ∙ ap (λ t. slash ∷ (x ++ t)) none_left, (name, tt))
      | inr (t, left) ↦
          let (d, r, e, open_rest) =
            open_slash t (subst (λ u. ends_in_slash u ≡ false) left open_end') in
          let left' : drop n (c ∷ s) ≡ slash ∷ d ∷ r = left ∙ ap (λ u. slash ∷ u) e in
          let shorter = length-drop_item slash c s no_slash in
          let (y, ys, chain, names) =
            clean_names fuel d r (omega (arith, ap (length {A = ℕ}) left', shorter))
              (subst (λ u. needs_normalize_from u ≡ false) left' quiet') open_rest in
          (x, y ∷ ys, cut ∙ ap (λ u. slash ∷ (x ++ u)) (left' ∙ chain), (name, names))
    ]

pub reverse-ne-nil : {A : Type 0} (x : A) (xs : List A) → reverse (x ∷ xs) ≢ []
reverse-ne-nil {A} x xs e = cc (sym (reverse-reverse (x ∷ xs)) ∙ ap (reverse {A = A}) e)

path_of_stack :
    (stack : List Bytes) → stack ≢ [] → path_of_segments stack ≡ encode slash (reverse stack)
unfolding path_of_segments
path_of_stack [] n = absurd (n refl)
path_of_stack (top ∷ stack) n = refl

-- A chain of names is what is written for its own segments.
pub path_of-names :
    (x : Bytes) (xs : List Bytes)
    → All IsName (x ∷ xs)
    → path_of_segments (resolve (encode slash (x ∷ xs))) ≡ encode slash (x ∷ xs)
unfolding resolve
path_of-names x xs all =
    ap (λ w. path_of_segments (push_all [] w))
      (words-encode slash (x ∷ xs) (names-items (x ∷ xs) all))
    ∙ ap path_of_segments (push_all-names (x ∷ xs) [] all)
    ∙ path_of_stack (reverse (x ∷ xs)) (reverse-ne-nil x xs)
    ∙ ap (encode slash) (reverse-reverse (x ∷ xs))

pub path_of-root : path_of_segments (resolve (slash ∷ [])) ≡ slash ∷ []
unfolding path_of_segments resolve words segments nonempty push_all
path_of-root = refl

needs_parts :
    (d : ℕ) (s : Bytes)
    → path_needs_normalize (slash ∷ d ∷ s) ≡ false
    → (needs_normalize_from (slash ∷ d ∷ s) ≡ false) × (ends_in_slash (slash ∷ d ∷ s) ≡ false)
unfolding path_needs_normalize
needs_parts d s h =
    by_parts (needs_normalize_from (slash ∷ d ∷ s)) (ends_in_slash (slash ∷ d ∷ s)) (length s) h
  where
    by_parts :
        (a b : Bool) (n : ℕ) → (a || (ltb 1 (suc (suc n)) && b)) ≡ false → (a ≡ false) × (b ≡ false)
    by_parts a b n h = ground arith

slow_path :
    (d : ℕ) (s : Bytes)
    → path_needs_normalize (slash ∷ d ∷ s) ≡ false
    → path_of_segments (resolve (slash ∷ d ∷ s)) ≡ slash ∷ d ∷ s
slow_path d s quiet =
    let (calm, open_end) = needs_parts d s quiet in
    let (x, xs, chain, names) =
      clean_names (length s + 1) d s (omega arith) calm (unfold ends_in_slash in open_end) in
    ap (λ p. path_of_segments (resolve p)) chain ∙ path_of-names x xs names ∙ sym chain

-- What the fast path returns is what the loop would have written.
pub fast_path :
    (path : Bytes)
    → path_is_absolute (some path) ≡ true
    → path_needs_normalize path ≡ false
    → path_of_segments (resolve path) ≡ path
unfolding path_is_absolute
fast_path [] h quiet = cc
fast_path (c ∷ []) h quiet = rw ((==_iff c slash).0 h) path_of-root
fast_path (c ∷ d ∷ s) h quiet =
    let e = (==_iff c slash).0 h in
    rw e (slow_path d s (subst (λ k. path_needs_normalize (k ∷ d ∷ s) ≡ false) e quiet))

normalize_split_lem : (buf : Bytes) → normalize_split buf ≡ some (path_of_segments (resolve buf))
unfolding normalize_split resolve
normalize_split_lem buf = ap written (segments_loop-push_all (length buf + 1) [] buf (omega arith))

absolutize_absolute :
    (path cwd buf : Bytes)
    → path_is_absolute (some path) ≡ true
    → path_absolutize path cwd ≡ some buf
    → path ≡ buf
unfolding path_absolutize
absolutize_absolute path cwd buf h e = ground arith

normalize_buf_lem :
    (path cwd buf : Bytes)
    → path_absolutize path cwd ≡ some buf
    → normalize_buf path buf ≡ some (path_of_segments (resolve buf))
unfolding normalize_buf
normalize_buf_lem path cwd buf fits =
    elim (Bool-cases (path_is_absolute (some path) && not (path_needs_normalize buf))) [
      | inl fast ↦
          let e = absolutize_absolute path cwd buf (ground arith) fits in
          let quiet : path_needs_normalize buf ≡ false = ground arith in
          rw fast (
            ap (λ p. some p)
              (sym (
                fast_path buf (subst (λ p. path_is_absolute (some p) ≡ true) e (ground arith))
                  quiet)))
      | inr slow ↦ rw slow (normalize_split_lem buf)
    ]

abbrev pub resolved : Option Bytes → Option Bytes
resolved none = none
resolved (some buf) = some (path_of_segments (resolve buf))

normalize_fitting_lem :
    (path cwd : Bytes) (o : Option Bytes)
    → path_absolutize path cwd ≡ o
    → normalize_fitting path o ≡ resolved o
normalize_fitting_lem path cwd none e = refl
normalize_fitting_lem path cwd (some buf) e = normalize_buf_lem path cwd buf e

pub path_normalize_cwd_lem :
    (path cwd : Bytes) → path_normalize_cwd path cwd ≡ resolved (path_absolutize path cwd)
unfolding path_normalize_cwd
path_normalize_cwd_lem path cwd = normalize_fitting_lem path cwd (path_absolutize path cwd) refl
