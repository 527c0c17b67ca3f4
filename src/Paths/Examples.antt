-- ===== src/Paths/Examples.antt =====
-- paths.c: the theorems at concrete paths, and runs of the functions.
use autark.Prelude.{◌≡◌, refl, some, [], ◌∷◌, skip_seps, item_len, encode, Bytes, codes, str_eq}
use autark.Paths.{
  normalize_buf, path_needs_normalize, normalize_split, segments_loop, path_of_segments,
  path_absolutize, path_normalize_cwd, ends_in_slash,
}
use autark.Paths.Relative.{relativize, path_basename}
use autark.Paths.Normal.{IsNormal, path_normalize_cwd-IsNormal}

-- /a/../b/./
abbrev winding : Bytes
winding = b'/' ∷ b'a' ∷ b'/' ∷ b'.' ∷ b'.' ∷ b'/' ∷ b'b' ∷ b'/' ∷ b'.' ∷ b'/' ∷ []

abbrev straight : Bytes
straight = b'/' ∷ b'b' ∷ []

normalizes : path_normalize_cwd winding [] ≡ some straight
unfolding path_normalize_cwd path_absolutize normalize_buf path_needs_normalize normalize_split
    segments_loop skip_seps item_len path_of_segments str_eq encode
normalizes = refl

straight-IsNormal : IsNormal straight
unfolding path_of_segments encode str_eq
straight-IsNormal = ((b'b' ∷ []) ∷ [], (((λ e. cc, (refl, tt)), refl, refl), tt), refl)

path_normalize_cwd-IsNormal_example : IsNormal straight
path_normalize_cwd-IsNormal_example = path_normalize_cwd-IsNormal winding [] straight normalizes

sibling_directory : relativize (codes "/a/b/c") (codes "/a/d") ≡ codes "../../d"
unfolding relativize str_eq ends_in_slash
sibling_directory = refl

below_root : relativize (codes "/") (codes "/a/b") ≡ codes "a/b"
unfolding relativize str_eq ends_in_slash
below_root = refl

same_directory : relativize (codes "/a") (codes "/a") ≡ codes "."
unfolding relativize str_eq ends_in_slash
same_directory = refl

name_behind_slashes : path_basename (some (codes "/a/bc//")) ≡ codes "bc"
unfolding path_basename
name_behind_slashes = refl
