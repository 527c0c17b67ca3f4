-- ===== src/Prelude/Split.antt =====
-- Texts whose items are set apart by one byte, such as value lists and paths.
use Prim.Native.Nat.{ℕ, suc, ◌≤◌, ◌<◌}
use mathlib.Core.Path.{◌≡◌, refl, sym, ap, ◌∙◌}
use mathlib.Core.Logic.{◌≢◌, ◌⊎◌, inl, inr}
use mathlib.Core.Bool.{false}
use mathlib.Core.List.{List, [], ◌∷◌, ◌++◌}
use native.Mathlib.Omega.{arith}
use autark.Prelude.Tests.{◌==◌, ==_iff, eq_self, Bool-cases, if◌then◌else◌}
use autark.Prelude.Lists.{length, take, drop, length-drop}
use autark.Prelude.Strings.{Bytes, Without, All}

abbrev pub onto : ℕ → List Bytes → List Bytes
onto c [] = (c ∷ []) ∷ []
onto c (x ∷ xs) = (c ∷ x) ∷ xs

unfoldable pub nonempty : List Bytes → List Bytes
nonempty [] = []
nonempty ([] ∷ xs) = nonempty xs
nonempty ((c ∷ s) ∷ xs) = (c ∷ s) ∷ nonempty xs

module _ (sep : ℕ) where
  -- The text behind the separators that it begins with.
  unfoldable pub skip_seps : Bytes → Bytes
  skip_seps [] = []
  skip_seps (c ∷ s) = if c == sep then skip_seps s else c ∷ s

  -- The length of the text up to a separator or the final zero.
  unfoldable pub item_len : Bytes → ℕ
  item_len [] = 0
  item_len (c ∷ s) = if c == sep then 0 else suc (item_len s)

  -- The text cut at every separator.
  unfoldable pub segments : Bytes → List Bytes
  segments [] = [] ∷ []
  segments (c ∷ s) = if c == sep then [] ∷ segments s else onto c (segments s)

  -- The segments that are not empty.
  unfoldable pub words : Bytes → List Bytes
  unfolding segments nonempty
  words s = nonempty (segments s)

  pub words-skip_seps : (s : Bytes) → words (skip_seps s) ≡ words s
  unfolding words skip_seps
  words-skip_seps [] = refl
  words-skip_seps (c ∷ s) = elim (Bool-cases (c == sep)) [
    | inl e ↦ rw e (words-skip_seps s)
    | inr e ↦ rw e (rw e refl)
  ]

  -- The first segment, and the rest of the text, which is empty or begins with a separator.
  pub segments_first :
      (s : Bytes)
      → (rest : List Bytes) × (segments s ≡ take (item_len s) s ∷ rest)
        × (nonempty (segments (drop (item_len s) s)) ≡ nonempty rest)
  unfolding segments item_len nonempty
  segments_first [] = ([], refl, refl)
  segments_first (c ∷ s) =
      let (rest, e, t) = segments_first s in
      elim (Bool-cases (c == sep)) [
        | inl h ↦ (segments s, rw h refl, rw (h, h) refl)
        | inr h ↦ (rest, rw h (ap (onto c) e), rw h t)
      ]

  pub skip_seps_head : (s : Bytes) (c : ℕ) (r : Bytes) → skip_seps s ≡ c ∷ r → (c == sep) ≡ false
  unfolding skip_seps
  skip_seps_head [] c r h = cc
  skip_seps_head (d ∷ s) c r h = ground (arith, skip_seps_head s c r)

  pub length-skip_seps : (s : Bytes) → length (skip_seps s) ≤ length s
  unfolding skip_seps
  length-skip_seps [] = omega arith
  length-skip_seps (c ∷ s) = ground (arith, length-skip_seps s)

  pub words_cons :
      (c : ℕ) (s : Bytes)
      → (c == sep) ≡ false
      → words (c ∷ s) ≡ take (item_len (c ∷ s)) (c ∷ s) ∷ words (drop (item_len (c ∷ s)) (c ∷ s))
  unfolding words nonempty segments item_len
  words_cons c s h =
      let (rest, e, t) = segments_first s in
      rw h (ap nonempty (ap (onto c) e) ∙ ap (λ r. (c ∷ take (item_len s) s) ∷ r) (sym t))

  -- Each item behind a separator.
  unfoldable pub encode : List Bytes → Bytes
  encode [] = []
  encode (x ∷ xs) = sep ∷ (x ++ encode xs)

  -- What a value list can hold: strings that are not empty and have no separator inside.
  abbrev pub IsItem : Bytes → Type 0
  IsItem x = (x ≢ []) × Without sep x

  pub segments_item : (x s : Bytes) → Without sep x → segments (x ++ (sep ∷ s)) ≡ x ∷ segments s
  unfolding segments
  segments_item [] s h = rw (eq_self sep)
  segments_item (d ∷ x) s h = rw h.0 (ap (onto d) (segments_item x s h.1))

  pub segments_last : (x : Bytes) → Without sep x → segments (x ++ []) ≡ x ∷ []
  unfolding segments
  segments_last [] h = refl
  segments_last (d ∷ x) h = rw h.0 (ap (onto d) (segments_last x h.1))

  pub segments-encode :
      (x : Bytes) (xs : List Bytes)
      → Without sep x
      → All IsItem xs
      → segments (x ++ encode xs) ≡ x ∷ xs
  unfolding encode
  segments-encode x [] h all = segments_last x h
  segments-encode x (y ∷ ys) h all =
      segments_item x (y ++ encode ys) h ∙ ap (λ t. x ∷ t) (segments-encode y ys all.0.1 all.1)

  pub nonempty_items : (xs : List Bytes) → All IsItem xs → nonempty xs ≡ xs
  unfolding nonempty
  nonempty_items [] all = refl
  nonempty_items ([] ∷ xs) all = absurd (all.0.0 refl)
  nonempty_items ((c ∷ s) ∷ xs) all = ap (λ t. (c ∷ s) ∷ t) (nonempty_items xs all.1)

  pub words-encode : (xs : List Bytes) → All IsItem xs → words (encode xs) ≡ xs
  unfolding words encode nonempty segments
  words-encode [] all = refl
  words-encode (x ∷ xs) all = rw (eq_self sep) (
      ap nonempty (unfold encode in segments-encode x xs all.0.1 all.1)
      ∙ nonempty_items (x ∷ xs) all)

  pub length-drop_item :
      (c : ℕ) (s : Bytes)
      → (c == sep) ≡ false
      → length (drop (item_len (c ∷ s)) (c ∷ s)) < length (c ∷ s)
  unfolding item_len
  length-drop_item c s h = rw h (omega (arith, length-drop (item_len s) s))

  -- Behind an item the text ends, or a separator stands.
  pub drop_item_cases :
      (s : Bytes) → (drop (item_len s) s ≡ []) ⊎ ((t : Bytes) × (drop (item_len s) s ≡ sep ∷ t))
  unfolding item_len
  drop_item_cases [] = inl refl
  drop_item_cases (c ∷ s) = elim (Bool-cases (c == sep)) [
    | inl e ↦ rw e (inr (s, ap (λ t. t ∷ s) ((==_iff c sep).0 e)))
    | inr e ↦ rw e (drop_item_cases s)
  ]

  onto-Without :
      (c : ℕ) (xs : List Bytes)
      → (c == sep) ≡ false
      → All (Without sep) xs
      → All (Without sep) (onto c xs)
  onto-Without c [] h all = ((h, tt), tt)
  onto-Without c (x ∷ xs) h all = ((h, all.0), all.1)

  segments-Without : (s : Bytes) → All (Without sep) (segments s)
  unfolding segments
  segments-Without [] = (tt, tt)
  segments-Without (c ∷ s) = elim (Bool-cases (c == sep)) [
    | inl e ↦ rw e (tt, segments-Without s)
    | inr e ↦ rw e (onto-Without c (segments s) e (segments-Without s))
  ]

  nonempty-IsItem : (xs : List Bytes) → All (Without sep) xs → All IsItem (nonempty xs)
  unfolding nonempty
  nonempty-IsItem [] all = tt
  nonempty-IsItem ([] ∷ xs) all = nonempty-IsItem xs all.1
  nonempty-IsItem ((c ∷ s) ∷ xs) all = (((λ e. cc), all.0), nonempty-IsItem xs all.1)

  pub words-IsItem : (s : Bytes) → All IsItem (words s)
  unfolding words
  words-IsItem s = nonempty-IsItem (segments s) (segments-Without s)

  pub take_item-Without : (s : Bytes) → Without sep (take (item_len s) s)
  unfolding item_len
  take_item-Without [] = tt
  take_item-Without (c ∷ s) = elim (Bool-cases (c == sep)) [
    | inl e ↦ rw e tt
    | inr e ↦ rw e (e, take_item-Without s)
  ]

  pub cut_first-IsItem :
      (c : ℕ) (s : Bytes) → (c == sep) ≡ false → IsItem (take (item_len (c ∷ s)) (c ∷ s))
  unfolding item_len
  cut_first-IsItem c s h = rw h ((λ e. cc), (h, take_item-Without s))
