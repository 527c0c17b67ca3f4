-- ===== src/Utils/Words/Spelling.antt =====
-- utils.c: which texts utils_split_values_add splits into which words.
use autark.Prelude.{
  ℕ, zero, suc, ◌+◌, ◌<◌, ◌≡◌, refl, sym, ap, ◌∙◌, ◌≢◌, Bool, true, false, ◌||◌, some, List, [],
  ◌∷◌, ◌++◌, arith, length, length-append, Bytes, ◌==◌, if◌then◌else◌,
}
use autark.Utils.Text.{char_is_space}
use autark.Utils.Vlist.{cons_items}
use autark.Utils.Words.{
  stop, skip, copy, act_at, put_byte, scan_byte, scan_word, skip_spaces, split_word, split_loop,
  split_values,
}

abbrev is_quote : ℕ → Bool
is_quote c = c == b'\'' || c == b'"'

abbrev Plain : ℕ → Type 0
Plain c = (char_is_space c ≡ false) × ((c == b'\\') ≡ false) × (is_quote c ≡ false)

-- Behind the open quote q (zero for none) the text spells the word, and closes the quote.
pub data Spells : ℕ → Bytes → Bytes → Type 0 where
  done : {q : ℕ} → q ≡ 0 → Spells q [] []
  escaped : {q b c : ℕ} {s w : Bytes} → b ≡ b'\\' → Spells q s w → Spells q (b ∷ c ∷ s) (c ∷ w)
  plain : {q c : ℕ} {s w : Bytes} → q ≡ 0 → Plain c → Spells q s w → Spells q (c ∷ s) (c ∷ w)
  opens : {q c : ℕ} {s w : Bytes} → q ≡ 0 → is_quote c ≡ true → Spells c s w → Spells q (c ∷ s) w
  closes :
      {q p c : ℕ} {s w : Bytes}
      → q ≢ 0
      → c ≡ q
      → c ≢ b'\\'
      → p ≡ 0
      → Spells p s w
      → Spells q (c ∷ s) w
  inside :
      {q c : ℕ} {s w : Bytes} → q ≢ 0 → c ≢ q → c ≢ b'\\' → Spells q s w → Spells q (c ∷ s) (c ∷ w)

-- The scan reads what is spelled, and stops at a space or at the end.
abbrev Stops : Bytes → Type 0
Stops [] = Unit
Stops (c ∷ r) = char_is_space c ≡ true

at_stop : (q c : ℕ) → q ≡ 0 → char_is_space c ≡ true → act_at false q c ≡ stop
unfolding act_at
at_stop q c e h = ground arith

scan_word_halts : {q : ℕ} (r : Bytes) → Stops r → q ≡ 0 → scan_word false q r ≡ ([], r)
unfolding scan_word
scan_word_halts [] h e = refl
scan_word_halts {q} (c ∷ r) h e =
    ap (λ a. scan_byte a c r (λ d k. scan_word d k r)) (at_stop q c e h)

at_backslash : (q b : ℕ) → b ≡ b'\\' → act_at false q b ≡ skip true q
unfolding act_at
at_backslash q b e = ground arith

at_other : (q c : ℕ) → q ≡ 0 → Plain c → act_at false q c ≡ copy false q
unfolding act_at
at_other q c e p = ground arith

at_open : (q c : ℕ) → q ≡ 0 → is_quote c ≡ true → act_at false q c ≡ skip false c
unfolding act_at
at_open q c e p = ground arith

at_close : (q c : ℕ) → q ≢ 0 → c ≡ q → c ≢ b'\\' → act_at false q c ≡ skip false 0
unfolding act_at
at_close q c n e m = ground arith

at_inside : (q c : ℕ) → q ≢ 0 → c ≢ q → c ≢ b'\\' → act_at false q c ≡ copy false q
unfolding act_at
at_inside q c n e m = ground arith

scan_skip :
    (e : Bool) (q c : ℕ) (s : Bytes) (b : Bool) (p : ℕ)
    → act_at e q c ≡ skip b p
    → scan_word e q (c ∷ s) ≡ scan_word b p s
unfolding scan_word
scan_skip e q c s b p h = ap (λ a. scan_byte a c s (λ d k. scan_word d k s)) h

scan_copy :
    (e : Bool) (q c : ℕ) (s : Bytes) (b : Bool) (p : ℕ)
    → act_at e q c ≡ copy b p
    → scan_word e q (c ∷ s) ≡ put_byte c (scan_word b p s)
unfolding scan_word
scan_copy e q c s b p h = ap (λ a. scan_byte a c s (λ d k. scan_word d k s)) h

behind_backslash : (q c : ℕ) → act_at true q c ≡ copy false q
unfolding act_at
behind_backslash q c = refl

scan_word-Spells :
    {q : ℕ} {s w : Bytes} (r : Bytes) → Stops r → Spells q s w → scan_word false q (s ++ r) ≡ (w, r)
scan_word-Spells r h (done e) = scan_word_halts r h e
scan_word-Spells r h (escaped {q = q} {b = b} {c = c} {s = s} e t) =
    scan_skip false q b (c ∷ (s ++ r)) true q (at_backslash q b e)
    ∙ scan_copy true q c (s ++ r) false q (behind_backslash q c)
    ∙ ap (put_byte c) (scan_word-Spells r h t)
scan_word-Spells r h (plain {q = q} {c = c} {s = s} e p t) =
    scan_copy false q c (s ++ r) false q (at_other q c e p)
    ∙ ap (put_byte c) (scan_word-Spells r h t)
scan_word-Spells r h (opens {q = q} {c = c} {s = s} e p t) =
    scan_skip false q c (s ++ r) false c (at_open q c e p) ∙ scan_word-Spells r h t
scan_word-Spells r h (closes {q = q} {c = c} {s = s} n e m z t) =
    scan_skip false q c (s ++ r) false 0 (at_close q c n e m)
    ∙ ap (λ k. scan_word false k (s ++ r)) (sym z)
    ∙ scan_word-Spells r h t
scan_word-Spells r h (inside {q = q} {c = c} {s = s} n e m t) =
    scan_copy false q c (s ++ r) false q (at_inside q c n e m)
    ∙ ap (put_byte c) (scan_word-Spells r h t)

-- The words of a text: spelled words with at least one space after each but the last.
pub data Line : Bytes → List Bytes → Type 0 where
  end : Line [] []
  blank :
      {c : ℕ} {s : Bytes} {ws : List Bytes} → char_is_space c ≡ true → Line s ws → Line (c ∷ s) ws
  word :
      {q b : ℕ} {s w t r : Bytes} {ws : List Bytes}
      → q ≡ 0
      → Spells q (b ∷ s) w
      → Stops r
      → Line r ws
      → t ≡ (b ∷ s) ++ r
      → Line t (w ∷ ws)

Spells-head : {q b : ℕ} {s w : Bytes} → q ≡ 0 → Spells q (b ∷ s) w → char_is_space b ≡ false
unfolding char_is_space
Spells-head z (escaped e t) = ground arith
Spells-head z (plain e p t) = p.0
Spells-head z (opens e p t) = ground arith
Spells-head z (closes n e m p t) = absurd (n z)
Spells-head z (inside n e m t) = absurd (n z)

skip_spaces_head : (b : ℕ) (s : Bytes) → char_is_space b ≡ false → skip_spaces (b ∷ s) ≡ b ∷ s
unfolding skip_spaces
skip_spaces_head b s h = rw h

split_blank :
    (fuel c : ℕ) (s : Bytes)
    → char_is_space c ≡ true
    → split_loop (suc fuel) (c ∷ s) ≡ split_loop (suc fuel) s
unfolding split_loop skip_spaces
split_blank fuel c s h =
    ap (λ (b : Bool). split_word (split_loop fuel) (if b then skip_spaces s else c ∷ s)) h

split_spelled :
    (fuel b : ℕ) (t s w r : Bytes) (ws : List Bytes)
    → skip_spaces t ≡ b ∷ s
    → scan_word false 0 (b ∷ s) ≡ (w, r)
    → split_loop fuel r ≡ some ws
    → split_loop (suc fuel) t ≡ some (w ∷ ws)
unfolding split_loop
split_spelled fuel b t s w r ws e scan rest =
    ap (split_word (split_loop fuel)) e
    ∙ ap (λ (x : Bytes × Bytes). cons_items x.0 (split_loop fuel x.1)) scan
    ∙ ap (cons_items w) rest

split_loop-Line :
    {s : Bytes} {ws : List Bytes}
    → Line s ws
    → (fuel : ℕ) → length s < fuel
    → split_loop fuel s ≡ some ws
split_loop-Line end zero h = elim h [ ]
split_loop-Line end (suc fuel) h = unfold split_loop skip_spaces in refl
split_loop-Line (blank e l) zero h = elim h [ ]
split_loop-Line (blank {c = c} {s = s} e l) (suc fuel) h =
    split_blank fuel c s e ∙ split_loop-Line l (suc fuel) (omega arith)
split_loop-Line (word z sp st l e) zero h = elim h [ ]
split_loop-Line (word {b = b} {s = s} {w = w} {t = t} {r = r} {ws = ws} z sp st l e) (suc fuel) h =
    split_spelled fuel b t (s ++ r) w r ws
      (ap skip_spaces e ∙ skip_spaces_head b (s ++ r) (Spells-head z sp))
      (ap (λ k. scan_word false k (b ∷ (s ++ r))) (sym z) ∙ scan_word-Spells r st sp)
      (split_loop-Line l fuel (omega (arith, ap (length {A = ℕ}) e, length-append (b ∷ s) r)))

-- A text of spelled words with spaces between them is split into these words, whatever mixture of
-- quotes and backslashes spells them, and the loops end.
pub split_values-Line : {s : Bytes} {ws : List Bytes} → Line s ws → split_values s ≡ some ws
unfolding split_values
split_values-Line {s} l = split_loop-Line l (length s + 1) (omega arith)
