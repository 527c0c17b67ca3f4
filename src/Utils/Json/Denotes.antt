-- ===== src/Utils/Json/Denotes.antt =====
-- utils.c: what is written is a JSON string for the value.
use mathlib.Core.Path.{subst}
use autark.Prelude.{
  ℕ, ◌+◌, ◌-◌, ◌*◌, ◌/◌, ◌%◌, ◌≤◌, ◌<◌, ◌≡◌, refl, ◌≢◌, inl, inr, false, none, [], ◌∷◌, ◌++◌, arith,
  Bytes, ltb, ◌==◌, ==_iff, Bool-cases,
}
use autark.Utils.Json.{hex_digit, json_escape_byte, json_escape_bytes, utils_json_escape_str}

-- The letters of the short escapes of JSON, and their bytes.
pub data Short : ℕ → ℕ → Type 0 where
  quotation : Short b'"' b'"'
  reverse_solidus : Short b'\\' b'\\'
  backspace : Short b'b' 8
  tab : Short b't' 9
  line_feed : Short b'n' 10
  form_feed : Short b'f' 12
  carriage_return : Short b'r' 13

-- The value of a hexadecimal digit of JSON.
pub data Hex : ℕ → ℕ → Type 0 where
  decimal : {c d : ℕ} → d < 10 → c ≡ b'0' + d → Hex c d
  letter : {c d : ℕ} → d < 6 → c ≡ b'a' + d → Hex c (10 + d)

-- The inner text of a JSON string, and the bytes that it denotes: no quotation mark, reverse solidus
-- or control byte stands in it but as an escape.
pub data Denotes : Bytes → Bytes → Type 0 where
  end : Denotes [] []
  unescaped :
      {c : ℕ} {t s : Bytes} → 32 ≤ c → c ≢ b'"' → c ≢ b'\\' → Denotes t s → Denotes (c ∷ t) (c ∷ s)
  short : {l c : ℕ} {t s : Bytes} → Short l c → Denotes t s → Denotes (b'\\' ∷ l ∷ t) (c ∷ s)
  unicode :
      {h l a b c : ℕ} {t s : Bytes}
      → Hex h a
      → Hex l b
      → c ≡ a * 16 + b
      → Denotes t s
      → Denotes (b'\\' ∷ b'u' ∷ b'0' ∷ b'0' ∷ h ∷ l ∷ t) (c ∷ s)

hex_digit-Hex : (d : ℕ) → d < 16 → Hex (hex_digit d) d
unfolding hex_digit
hex_digit-Hex d h = elim (Bool-cases (ltb d 10)) [
  | inl small ↦ rw small (decimal (ground arith) refl)
  | inr big ↦
      let e : 10 + (d - 10) ≡ d = ground arith in
      rw big (subst (λ k. Hex (b'a' + (d - 10)) k) e (letter (omega arith) refl))
]

-- A byte without a short escape.
abbrev NotShort : ℕ → Type 0
NotShort c =
    ((c == 34) ≡ false)
    × ((c == 92) ≡ false)
    × ((c == 8) ≡ false)
    × ((c == 9) ≡ false)
    × ((c == 10) ≡ false)
    × ((c == 12) ≡ false)
    × ((c == 13) ≡ false)

long-Denotes :
    (c : ℕ) (t s : Bytes) → NotShort c → Denotes t s → Denotes (json_escape_byte c ++ t) (c ∷ s)
unfolding json_escape_byte
long-Denotes c t s n h = elim (Bool-cases (ltb c 32)) [
  | inl control ↦
      rw (n.0, n.1, n.2, n.3, n.4, n.5, n.6, control)
        (unicode (hex_digit-Hex (c / 16) (ground arith)) (hex_digit-Hex (c % 16) (omega arith))
          (omega arith) h)
  | inr plain ↦
      rw (n.0, n.1, n.2, n.3, n.4, n.5, n.6, plain)
        (unescaped (ground arith) (λ e. ground arith) (λ e. ground arith) h)
]

escape_letter-Denotes :
    (l c d : ℕ) (t s : Bytes)
    → Short l d
    → c ≡ d
    → json_escape_byte d ≡ b'\\' ∷ l ∷ []
    → Denotes t s
    → Denotes (json_escape_byte c ++ t) (c ∷ s)
escape_letter-Denotes l c d t s k e w h = rw (e, w) (short k h)

byte-Denotes : (c : ℕ) (t s : Bytes) → Denotes t s → Denotes (json_escape_byte c ++ t) (c ∷ s)
byte-Denotes c t s h = elim (Bool-cases (c == 34)) [
  | inl e ↦
      escape_letter-Denotes _ c 34 t s quotation ((==_iff c 34).0 e)
        (unfold json_escape_byte in refl) h
  | inr n0 ↦ elim (Bool-cases (c == 92)) [
    | inl e ↦
        escape_letter-Denotes _ c 92 t s reverse_solidus ((==_iff c 92).0 e)
          (unfold json_escape_byte in refl) h
    | inr n1 ↦ elim (Bool-cases (c == 8)) [
      | inl e ↦
          escape_letter-Denotes _ c 8 t s backspace ((==_iff c 8).0 e)
            (unfold json_escape_byte in refl) h
      | inr n2 ↦ elim (Bool-cases (c == 9)) [
        | inl e ↦
            escape_letter-Denotes _ c 9 t s tab ((==_iff c 9).0 e) (unfold json_escape_byte in refl)
              h
        | inr n3 ↦ elim (Bool-cases (c == 10)) [
          | inl e ↦
              escape_letter-Denotes _ c 10 t s line_feed ((==_iff c 10).0 e)
                (unfold json_escape_byte in refl) h
          | inr n4 ↦ elim (Bool-cases (c == 12)) [
            | inl e ↦
                escape_letter-Denotes _ c 12 t s form_feed ((==_iff c 12).0 e)
                  (unfold json_escape_byte in refl) h
            | inr n5 ↦ elim (Bool-cases (c == 13)) [
              | inl e ↦
                  escape_letter-Denotes _ c 13 t s carriage_return ((==_iff c 13).0 e)
                    (unfold json_escape_byte in refl) h
              | inr n6 ↦ long-Denotes c t s (n0, n1, n2, n3, n4, n5, n6) h
            ]
          ]
        ]
      ]
    ]
  ]
]

bytes-Denotes : (s : Bytes) → Denotes (json_escape_bytes s) s
unfolding json_escape_bytes
bytes-Denotes [] = end
bytes-Denotes (c ∷ s) = byte-Denotes c (json_escape_bytes s) s (bytes-Denotes s)

-- What is added for a value is a JSON string in quotation marks that denotes the value.
pub utils_json_escape_str-Denotes :
    (val xstr : Bytes)
    → (t : Bytes) × (utils_json_escape_str val none xstr ≡ xstr ++ (b'"' ∷ (t ++ (b'"' ∷ []))))
      × Denotes t val
unfolding utils_json_escape_str
utils_json_escape_str-Denotes val xstr = (json_escape_bytes val, refl, bytes-Denotes val)
