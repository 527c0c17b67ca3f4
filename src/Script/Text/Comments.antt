-- ===== src/Script/Text/Comments.antt =====
-- script.c: which lines _preprocess_script empties.
use autark.Prelude.{
  ℕ, ◌≡◌, refl, sym, ap, ◌∙◌, inl, inr, Bool, true, false, ◌&&◌, ◌||◌, List, [], ◌∷◌, onto,
  segments, segments_first, Bytes, ◌==◌, if◌then◌else◌, ==_iff, Bool-cases,
}
use autark.Utils.Text.{char_is_space}
use autark.Utils.Words.{skip_spaces}
use autark.Script.Text.{newline, at_comment, keep_byte, preprocess_from, preprocess_script}

-- Whether the first byte of a line that is not a space is '#'; `rest` if there is none.
abbrev pub line_comment : Bytes → Bool → Bool
line_comment [] rest = rest
line_comment (c ∷ l) rest = if char_is_space c then line_comment l rest else c == b'#'

-- Whether the first byte of the lines that is not a space is '#'.
abbrev pub commented : List Bytes → Bool
commented [] = false
commented (l ∷ ls) = line_comment l (commented ls)

-- The lines with those emptied that are a comment, or are blank and stand before one.
abbrev pub clean : List Bytes → List Bytes
clean [] = []
clean (l ∷ ls) = (if commented (l ∷ ls) then [] else l) ∷ clean ls

-- The lines behind the first are cleaned, and the first is kept or emptied.
abbrev clean_rest : Bool → List Bytes → List Bytes
clean_rest empty [] = []
clean_rest empty (l ∷ ls) = (if empty then [] else l) ∷ clean ls

commented-onto :
    (c : ℕ) (ls : List Bytes)
    → commented (onto c ls) ≡ (if char_is_space c then commented ls else c == b'#')
commented-onto c [] = refl
commented-onto c (l ∷ ls) = refl

by_space :
    (c : ℕ) (s : Bytes) (b : Bool)
    → at_comment (skip_spaces s) ≡ commented (segments newline s)
    → at_comment (if b then skip_spaces s else c ∷ s)
      ≡ (if b then commented (segments newline s) else c == b'#')
unfolding at_comment
by_space c s true h = h
by_space c s false h = refl

newline_space : char_is_space newline ≡ true
unfolding char_is_space
newline_space = refl

at_comment-commented : (s : Bytes) → at_comment (skip_spaces s) ≡ commented (segments newline s)
unfolding at_comment skip_spaces segments
at_comment-commented [] = refl
at_comment-commented (c ∷ s) = elim (Bool-cases (c == newline)) [
  | inl e ↦ rw ((==_iff c newline).0 e, newline_space) (at_comment-commented s)
  | inr n ↦ rw n (
      by_space c s (char_is_space c) (at_comment-commented s)
      ∙ sym (commented-onto c (segments newline s)))
]

clean_first : (ls : List Bytes) → clean_rest (commented ls) ls ≡ clean ls
clean_first [] = refl
clean_first (l ∷ ls) = refl

clean_nothing : (b : Bool) (ls : List Bytes) → clean_rest b ([] ∷ ls) ≡ [] ∷ clean ls
clean_nothing true ls = refl
clean_nothing false ls = refl

segments-newline :
    (c : ℕ) (s : Bytes) → (c == newline) ≡ true → segments newline (c ∷ s) ≡ [] ∷ segments newline s
unfolding segments
segments-newline c s e = rw e refl

segments-other :
    (c : ℕ) (s : Bytes)
    → (c == newline) ≡ false
    → segments newline (c ∷ s) ≡ onto c (segments newline s)
unfolding segments
segments-other c s e = rw e refl

onto-clean :
    (c : ℕ) (b : Bool) (s w : Bytes)
    → (c == newline) ≡ false
    → segments newline w ≡ clean_rest b (segments newline s)
    → segments newline (keep_byte b c w) ≡ clean_rest b (onto c (segments newline s))
onto-clean c true s w n h =
    let (rest, e, f) = segments_first newline s in
    h ∙ ap (clean_rest true) e ∙ ap (λ ls. clean_rest true (onto c ls)) (sym e)
onto-clean c false s w n h =
    let (rest, e, f) = segments_first newline s in
    segments-other c w n
    ∙ ap (onto c) (h ∙ ap (clean_rest false) e)
    ∙ ap (λ ls. clean_rest false (onto c ls)) (sym e)

or_false : (b : Bool) → (b || false) ≡ b
or_false true = refl
or_false false = refl

preprocess_from-clean :
    (comment eol : Bool) (s : Bytes)
    → segments newline (preprocess_from comment eol s)
      ≡ clean_rest (comment || (eol && commented (segments newline s))) (segments newline s)
unfolding preprocess_from
preprocess_from-clean comment eol [] =
    unfold segments in sym (clean_nothing (comment || (eol && false)) [])
preprocess_from-clean comment eol (c ∷ p) =
    let ls = segments newline p in
    elim (Bool-cases (c == newline)) [
      | inl e ↦ rw e (
          segments-newline c (preprocess_from false true p) e
          ∙ ap (λ t. [] ∷ t) (preprocess_from-clean false true p ∙ clean_first ls)
          ∙ sym (clean_nothing (comment || (eol && commented (segments newline (c ∷ p)))) ls)
          ∙ ap (clean_rest (comment || (eol && commented (segments newline (c ∷ p)))))
              (sym (segments-newline c p e)))
      | inr n ↦
          let begins = comment || (eol && commented (segments newline (c ∷ p))) in
          rw (n, at_comment-commented (c ∷ p))
            (onto-clean c begins p (preprocess_from begins false p) n
                (preprocess_from-clean begins false p ∙ ap (λ b. clean_rest b ls) (or_false begins))
              ∙ ap (clean_rest begins) (sym (segments-other c p n)))
    ]

-- A script is read line by line: the lines that are a comment, and the blank ones before such a line,
-- are emptied, and all other lines are kept, so that the numbers of the lines stay as they are.
pub preprocess_script-clean :
    (v : Bytes) → segments newline (preprocess_script v) ≡ clean (segments newline v)
unfolding preprocess_script
preprocess_script-clean v = preprocess_from-clean false true v ∙ clean_first (segments newline v)
