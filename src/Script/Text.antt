-- ===== src/Script/Text.antt =====
-- script.c: the text of a script before it is parsed, and the escapes in its words.
pub mod Comments
pub mod Escape
use autark.Prelude.{ℕ, Bool, true, false, ◌&&◌, ◌||◌, [], ◌∷◌, Bytes, ◌==◌, if◌then◌else◌}
use autark.Utils.Text.{char_is_space}
use autark.Utils.Words.{skip_spaces}

abbrev pub newline : ℕ
newline = b'\n'

-- The switch of _text_escaped on the byte behind a backslash.
unfoldable pub escaped_byte : ℕ → ℕ
escaped_byte c =
    if c == b'n' then b'\n' else if c == b'r' then b'\r' else if c == b't' then b'\t' else c

-- The loop of _text_escaped, with `esc`.
unfoldable pub text_escaped_from : Bool → Bytes → Bytes
text_escaped_from esc [] = []
text_escaped_from true (c ∷ rp) = escaped_byte c ∷ text_escaped_from false rp
text_escaped_from false (c ∷ rp) =
    if c == b'\\' then text_escaped_from true rp else c ∷ text_escaped_from false rp

unfoldable pub text_escaped : Bytes → Bytes
unfolding text_escaped_from
text_escaped rp = text_escaped_from false rp

-- *sp == '#', behind the spaces
unfoldable pub at_comment : Bytes → Bool
at_comment [] = false
at_comment (c ∷ sp) = c == b'#'

-- A byte of the text, and what is written behind it.
abbrev pub keep_byte : Bool → ℕ → Bytes → Bytes
keep_byte comment c w = if comment then w else c ∷ w

-- The loop of _preprocess_script, with `comment` and `eol`.
unfoldable pub preprocess_from : Bool → Bool → Bytes → Bytes
unfolding at_comment
preprocess_from comment eol [] = []
preprocess_from comment eol (c ∷ p) =
    let begins = comment || (eol && at_comment (skip_spaces (c ∷ p))) in
    let after_newline = preprocess_from false true p in
    let in_line = preprocess_from begins false p in
    if c == newline then c ∷ after_newline else keep_byte begins c in_line

unfoldable pub preprocess_script : Bytes → Bytes
unfolding preprocess_from
preprocess_script v = preprocess_from false true v
