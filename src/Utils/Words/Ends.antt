-- ===== src/Utils/Words/Ends.antt =====
-- utils.c: the loops of utils_split_values_add end on every text.
use autark.Prelude.{
  ℕ, zero, suc, ◌+◌, ◌≤◌, ◌<◌, ◌≡◌, refl, ap, ◌≢◌, Bool, false, Option, some, List, [], ◌∷◌, arith,
  length, Bytes,
}
use autark.Utils.Text.{char_is_space}
use autark.Utils.Vlist.{cons_items}
use autark.Utils.Words.{
  Act, stop, skip, copy, act_at, scan_byte, scan_word, skip_spaces, split_word, split_loop,
  split_values,
}

scan_byte_rest :
    (a : Act) (c : ℕ) (s : Bytes) (rest : Bool → ℕ → Bytes × Bytes)
    → ((b : Bool) (q : ℕ) → length (rest b q).1 ≤ length s)
    → length (scan_byte a c s rest).1 ≤ length (c ∷ s)
unfolding scan_byte
scan_byte_rest stop c s rest h = omega arith
scan_byte_rest (skip b q) c s rest h = omega (arith, h b q)
scan_byte_rest (copy b q) c s rest h = omega (arith, h b q)

-- A byte that does not stop the scan is behind it.
scan_byte_moves :
    (a : Act) (c : ℕ) (s : Bytes) (rest : Bool → ℕ → Bytes × Bytes)
    → a ≢ stop
    → ((b : Bool) (q : ℕ) → length (rest b q).1 ≤ length s)
    → length (scan_byte a c s rest).1 ≤ length s
unfolding scan_byte
scan_byte_moves stop c s rest n h = absurd (n refl)
scan_byte_moves (skip b q) c s rest n h = h b q
scan_byte_moves (copy b q) c s rest n h = h b q

-- The text behind a word is no longer than the text scanned.
scan_word_rest : (b : Bool) (q : ℕ) (s : Bytes) → length (scan_word b q s).1 ≤ length s
unfolding scan_word
scan_word_rest b q [] = omega arith
scan_word_rest b q (c ∷ s) =
    scan_byte_rest (act_at b q c) c s (λ d p. scan_word d p s) (λ d p. scan_word_rest d p s)

moves : (c : ℕ) → char_is_space c ≡ false → act_at false 0 c ≢ stop
unfolding act_at
moves c h = ground arith

skip_spaces_short : (s : Bytes) → length (skip_spaces s) ≤ length s
unfolding skip_spaces
skip_spaces_short [] = omega arith
skip_spaces_short (c ∷ s) = ground (arith, skip_spaces_short s)

skip_spaces_begins :
    (s : Bytes) (c : ℕ) (r : Bytes) → skip_spaces s ≡ c ∷ r → char_is_space c ≡ false
unfolding skip_spaces
skip_spaces_begins [] c r h = cc
skip_spaces_begins (d ∷ s) c r h = ground (arith, skip_spaces_begins s c r)

split_word-total :
    (rest : Bytes → Option (List Bytes)) (s : Bytes)
    → ((c : ℕ) (r : Bytes) → s ≡ c ∷ r → char_is_space c ≡ false)
    → ((t : Bytes) → length t < length s → (ws : List Bytes) × (rest t ≡ some ws))
    → (ws : List Bytes) × (split_word rest s ≡ some ws)
unfolding split_word scan_word
split_word-total rest [] h ends = ([], refl)
split_word-total rest (c ∷ s) h ends =
    let short =
      scan_byte_moves (act_at false 0 c) c s (λ d p. scan_word d p s) (moves c (h c s refl))
        (λ d p. scan_word_rest d p s) in
    let (ws, e) = ends (scan_word false 0 (c ∷ s)).1 (omega (arith, short)) in
    ((scan_word false 0 (c ∷ s)).0 ∷ ws, ap (cons_items (scan_word false 0 (c ∷ s)).0) e)

split_loop-total :
    (fuel : ℕ) (s : Bytes) → length s < fuel → (ws : List Bytes) × (split_loop fuel s ≡ some ws)
unfolding split_loop
split_loop-total zero s h = elim h [ ]
split_loop-total (suc fuel) s h =
    split_word-total (split_loop fuel) (skip_spaces s) (skip_spaces_begins s)
      (λ t k. split_loop-total fuel t (omega (arith, skip_spaces_short s)))

-- Every text is split into words.
pub split_values-total : (s : Bytes) → (ws : List Bytes) × (split_values s ≡ some ws)
unfolding split_values
split_values-total s = split_loop-total (length s + 1) s (omega arith)
