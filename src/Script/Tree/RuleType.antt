-- ===== src/Script/Tree/RuleType.antt =====
-- script.c: the marks in front of a rule's key.
use autark.Prelude.{◌≡◌, refl, ap, ◌∙◌, Bool, true, false, [], ◌∷◌, Bytes}
use autark.Script.Tree.{NodeType, skip_spread, strip_negate, type_of_key, rule_type}

-- A key without marks: it begins with no ".." and with no '!'.
abbrev pub Unmarked : Bytes → Type 0
Unmarked key = (skip_spread key ≡ key) × (strip_negate key ≡ (key, false))

abbrev typed : Bytes × Bool → NodeType × Bool
typed r = (type_of_key r.0, r.1)

negated : (key : Bytes) → rule_type (b'!' ∷ key) ≡ (type_of_key key, true)
unfolding rule_type skip_spread strip_negate
negated [] = refl
negated (c ∷ key) = refl

-- The marks ".." and '!' in front of a key leave its type, and '!' alone negates; ".." is read first.
pub rule_type-marks :
    (key : Bytes)
    → Unmarked key
    → (rule_type key ≡ (type_of_key key, false))
      × (rule_type (b'!' ∷ key) ≡ (type_of_key key, true))
      × (rule_type (b'.' ∷ b'.' ∷ key) ≡ (type_of_key key, false))
      × (rule_type (b'.' ∷ b'.' ∷ b'!' ∷ key) ≡ (type_of_key key, true))
unfolding rule_type
rule_type-marks key (spread, negate) = (
  ap (λ k. typed (strip_negate k)) spread ∙ ap typed negate,
  negated key,
  unfold skip_spread in ap typed negate,
  unfold skip_spread strip_negate in refl,
)
