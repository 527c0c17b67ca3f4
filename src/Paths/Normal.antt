-- ===== src/Paths/Normal.antt =====
-- paths.c: what path_normalize_cwd returns is in normal form, and stays as it is.
use mathlib.Core.Path.{subst}
use mathlib.Core.List.{reverse_aux}
use autark.Prelude.{
  ◌<◌, ◌≡◌, refl, sym, ap, ◌∙◌, ◌≢◌, true, Option, none, some, List, [], ◌∷◌, reverse, arith,
  length, words, encode, words-IsItem, Bytes, All,
}
use autark.Paths.{
  slash, path_max, path_of_segments, path_is_absolute, path_absolutize, path_normalize_cwd,
}
use autark.Paths.Normalize.{IsName, push_all-IsName}
use autark.Paths.Canonical.{
  resolve, resolved, reverse-ne-nil, path_of-names, path_of-root, path_normalize_cwd_lem,
}

-- A path in normal form: the root, or names behind slashes.
abbrev pub IsNormal : Bytes → Type 0
IsNormal p = (xs : List Bytes) × All IsName xs × (p ≡ path_of_segments xs)

resolve-IsNormal : (buf : Bytes) → IsNormal (path_of_segments (resolve buf))
unfolding resolve
resolve-IsNormal buf =
    (resolve buf, push_all-IsName (words slash buf) [] (words-IsItem slash buf) tt, refl)

resolved-IsNormal : (o : Option Bytes) (p : Bytes) → resolved o ≡ some p → IsNormal p
resolved-IsNormal none p h = cc
resolved-IsNormal (some buf) p h =
    let e : path_of_segments (resolve buf) ≡ p = cc in subst IsNormal e (resolve-IsNormal buf)

-- Whatever path_normalize_cwd returns is in normal form.
pub path_normalize_cwd-IsNormal :
    (path cwd p : Bytes) → path_normalize_cwd path cwd ≡ some p → IsNormal p
path_normalize_cwd-IsNormal path cwd p h =
    resolved-IsNormal (path_absolutize path cwd) p (sym (path_normalize_cwd_lem path cwd) ∙ h)

reverse_aux-All :
    (xs ys : List Bytes) → All IsName xs → All IsName ys → All IsName (reverse_aux xs ys)
reverse_aux-All [] ys a b = b
reverse_aux-All (x ∷ xs) ys a b = reverse_aux-All xs (x ∷ ys) a.1 (a.0, b)

chain_stays :
    (xs : List Bytes)
    → xs ≢ []
    → All IsName xs
    → path_of_segments (resolve (encode slash xs)) ≡ encode slash xs
chain_stays [] n all = absurd (n refl)
chain_stays (x ∷ xs) n all = path_of-names x xs all

normal_stays : (p : Bytes) → IsNormal p → path_of_segments (resolve p) ≡ p
unfolding path_of_segments
normal_stays p ([], all, e) = rw e path_of-root
normal_stays p (x ∷ xs, all, e) =
    rw e (chain_stays (reverse (x ∷ xs)) (reverse-ne-nil x xs) (reverse_aux-All (x ∷ xs) [] all tt))

chain_is_absolute : (xs : List Bytes) → xs ≢ [] → path_is_absolute (some (encode slash xs)) ≡ true
unfolding path_is_absolute encode
chain_is_absolute [] n = absurd (n refl)
chain_is_absolute (x ∷ xs) n = refl

normal_is_absolute : (p : Bytes) → IsNormal p → path_is_absolute (some p) ≡ true
unfolding path_of_segments
normal_is_absolute p ([], all, e) = rw e (unfold path_is_absolute in refl)
normal_is_absolute p (x ∷ xs, all, e) =
    rw e (chain_is_absolute (reverse (x ∷ xs)) (reverse-ne-nil x xs))

absolutize_normal :
    (p cwd : Bytes)
    → path_is_absolute (some p) ≡ true
    → length p < path_max
    → path_absolutize p cwd ≡ some p
unfolding path_absolutize
absolutize_normal p cwd h fits = ground arith

-- A path in normal form that fits is returned as it is, from any working directory.
pub path_normalize_cwd_normal :
    (p cwd : Bytes) → IsNormal p → length p < path_max → path_normalize_cwd p cwd ≡ some p
path_normalize_cwd_normal p cwd normal fits =
    path_normalize_cwd_lem p cwd
    ∙ ap resolved (absolutize_normal p cwd (normal_is_absolute p normal) fits)
    ∙ ap (λ q. some q) (normal_stays p normal)
