-- ===== src/Utils/Json.antt =====
-- utils.c: utils_json_escape_str.
pub mod Denotes
use autark.Prelude.{
  ℕ, ◌+◌, ◌-◌, ◌/◌, ◌%◌, ◌||◌, Option, none, some, [], ◌∷◌, ◌++◌, take, Bytes, ltb, ◌==◌,
  if◌then◌else◌,
}

-- A digit of "%04x"
unfoldable pub hex_digit : ℕ → ℕ
hex_digit d = if ltb d 10 then b'0' + d else b'a' + (d - 10)

-- The switch on a byte: what is written for it. "\\u%04x" is used for bytes below 32 only.
unfoldable pub json_escape_byte : ℕ → Bytes
unfolding hex_digit
json_escape_byte ch =
    if ch == b'"' || ch == b'\\'
    then b'\\' ∷ ch ∷ []
    else if ch == 8
    then b'\\' ∷ b'b' ∷ []
    else if ch == 9
    then b'\\' ∷ b't' ∷ []
    else if ch == 10
    then b'\\' ∷ b'n' ∷ []
    else if ch == 12
    then b'\\' ∷ b'f' ∷ []
    else if ch == 13
    then b'\\' ∷ b'r' ∷ []
    else if ltb ch 32
    then b'\\' ∷ b'u' ∷ b'0' ∷ b'0' ∷ hex_digit (ch / 16) ∷ hex_digit (ch % 16) ∷ []
    else ch ∷ []

-- The loop over the bytes.
unfoldable pub json_escape_bytes : Bytes → Bytes
json_escape_bytes [] = []
json_escape_bytes (ch ∷ val) = json_escape_byte ch ++ json_escape_bytes val

-- What the buffer holds afterwards, for `len` bytes of the value, or all of them for a negative `len`,
-- which is `none`.
unfoldable pub utils_json_escape_str : Bytes → Option ℕ → Bytes → Bytes
unfolding json_escape_bytes
utils_json_escape_str val none xstr = xstr ++ (b'"' ∷ (json_escape_bytes val ++ (b'"' ∷ [])))
utils_json_escape_str val (some len) xstr =
    xstr ++ (b'"' ∷ (json_escape_bytes (take len val) ++ (b'"' ∷ [])))
