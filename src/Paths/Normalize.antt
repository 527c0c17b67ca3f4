-- ===== src/Paths/Normalize.antt =====
-- paths.c: path_normalize_cwd computes the segments of the path, and they are in normal form.
use autark.Prelude.{
  ℕ, zero, suc, ◌<◌, ◌≡◌, refl, sym, ap, ◌∙◌, inl, inr, false, Option, some, List, [], ◌∷◌, arith,
  length, take, drop, nonempty, skip_seps, item_len, segments, words, words-skip_seps,
  skip_seps_head, length-skip_seps, words_cons, IsItem, length-drop_item, Bytes, str_eq, All, ◌==◌,
  Bool-cases,
}
use autark.Paths.{slash, dot, dot_dot, push_segment, take_segment, segments_loop}

-- The stack after all segments.
unfoldable pub push_all : List Bytes → List Bytes → List Bytes
unfolding push_segment
push_all stack [] = stack
push_all stack (x ∷ xs) = push_all (push_segment x stack) xs

pub push_all-cons :
    (x : Bytes) (xs stack : List Bytes)
    → push_all stack (x ∷ xs) ≡ push_all (push_segment x stack) xs
unfolding push_all
push_all-cons x xs stack = refl

take_segment-push_all :
    (stack : List Bytes) (rest : List Bytes → Bytes → Option (List Bytes)) (t : Bytes)
    → ((c : ℕ) (r : Bytes) → t ≡ c ∷ r → (c == slash) ≡ false)
    → ((st : List Bytes) (r : Bytes)
        → length r < length t
        → rest st r ≡ some (push_all st (words slash r)))
    → take_segment stack rest t ≡ some (push_all stack (words slash t))
unfolding take_segment
take_segment-push_all stack rest [] h ih = unfold words segments nonempty push_all in refl
take_segment-push_all stack rest (c ∷ s) h ih =
    let n = item_len slash (c ∷ s) in
    let x = take n (c ∷ s) in
    ih (push_segment x stack) (drop n (c ∷ s)) (length-drop_item slash c s (h c s refl))
    ∙ ap (λ t. some t) (sym (push_all-cons x (words slash (drop n (c ∷ s))) stack))
    ∙ ap (λ w. some (push_all stack w)) (sym (words_cons slash c s (h c s refl)))

pub segments_loop-push_all :
    (fuel : ℕ) (stack : List Bytes) (rp : Bytes)
    → length rp < fuel
    → segments_loop fuel stack rp ≡ some (push_all stack (words slash rp))
unfolding segments_loop
segments_loop-push_all zero stack rp h = elim h [ ]
segments_loop-push_all (suc fuel) stack rp h =
    take_segment-push_all stack (λ t r. segments_loop fuel t r) (skip_seps slash rp)
      (skip_seps_head slash rp)
      (λ st r k. segments_loop-push_all fuel st r (omega (arith, length-skip_seps slash rp)))
    ∙ ap (λ w. some (push_all stack w)) (words-skip_seps slash rp)

-- A name that stands in a path in normal form: no slash, and neither "." nor "..".
abbrev pub IsName : Bytes → Type 0
IsName x = IsItem slash x × (str_eq x dot ≡ false) × (str_eq x dot_dot ≡ false)

drop_one-All : (P : Bytes → Type 0) (xs : List Bytes) → All P xs → All P (drop 1 xs)
drop_one-All P [] all = all
drop_one-All P (x ∷ xs) all = all.1

push_segment-IsName :
    (x : Bytes) (stack : List Bytes)
    → IsItem slash x
    → All IsName stack
    → All IsName (push_segment x stack)
unfolding push_segment
push_segment-IsName x stack item all = elim (Bool-cases (str_eq x dot)) [
  | inl e ↦ rw e all
  | inr e ↦ rw e (elim (Bool-cases (str_eq x dot_dot)) [
    | inl f ↦ rw f (drop_one-All IsName stack all)
    | inr f ↦ rw f ((item, e, f), all)
  ])
]

pub push_all-IsName :
    (xs stack : List Bytes)
    → All (IsItem slash) xs
    → All IsName stack
    → All IsName (push_all stack xs)
push_all-IsName [] stack items all = unfold push_all in all
push_all-IsName (x ∷ xs) stack items all =
    rw push_all-cons
      (push_all-IsName xs (push_segment x stack) items.1 (push_segment-IsName x stack items.0 all))
