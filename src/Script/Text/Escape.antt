-- ===== src/Script/Text/Escape.antt =====
-- script.c: every word can be written with escapes, and is read back.
use autark.Prelude.{ℕ, ◌≡◌, refl, ap, ◌∙◌, false, ◌||◌, [], ◌∷◌, arith, Bytes, ◌==◌, if◌then◌else◌}
use autark.Script.Text.{escaped_byte, text_escaped_from, text_escaped}

-- The byte as CHP1 or CHP2 of the grammar spells it.
abbrev pub escape_byte : ℕ → Bytes → Bytes
escape_byte c s =
    if c == b'\n'
    then b'\\' ∷ b'n' ∷ s
    else if c == b'\r'
    then b'\\' ∷ b'r' ∷ s
    else if c == b'\t'
    then b'\\' ∷ b't' ∷ s
    else if c == b'\\' || (c == b'{' || c == b'}')
    then b'\\' ∷ c ∷ s
    else c ∷ s

abbrev pub escape : Bytes → Bytes
escape [] = []
escape (c ∷ s) = escape_byte c (escape s)

escape_byte-read :
    (c : ℕ) (s : Bytes) → text_escaped_from false (escape_byte c s) ≡ c ∷ text_escaped_from false s
unfolding text_escaped_from escaped_byte
escape_byte-read c s = ground arith

-- A word written with escapes for line ends, tabs, backslashes and braces is read back as it was.
pub text_escaped-escape : (s : Bytes) → text_escaped (escape s) ≡ s
unfolding text_escaped
text_escaped-escape [] = unfold text_escaped_from in refl
text_escaped-escape (c ∷ s) =
    escape_byte-read c (escape s) ∙ ap (λ t. c ∷ t) (text_escaped-escape s)
