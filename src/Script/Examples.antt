-- ===== src/Script/Examples.antt =====
-- script.c: the theorems at concrete texts, and runs of the functions.
use autark.Prelude.{◌≡◌, refl, true, [], segments, codes, str_eq}
use autark.Script.Text.{newline, text_escaped, preprocess_script}
use autark.Script.Text.Escape.{escape, text_escaped-escape}
use autark.Script.Text.Comments.{clean, preprocess_script-clean}
use autark.Script.Tree.{type_of_key, rule_type, finish, skip_spread, strip_negate, set}
use autark.Script.Tree.RuleType.{Unmarked}
use autark.Script.Tree.Build.{
  bare, quoted, braced, Spellings, end, next, read_all, trees, finish-trees,
}

-- set { A 'B C' } X
abbrev small : Spellings
small =
    next (braced (codes "set") (next (bare (codes "A")) (next (quoted (codes "B C")) end)))
      (next (bare (codes "X")) end)

finish-trees_example : finish (read_all small (record { stack = []; nodes = 1 })) ≡ trees 1 small
finish-trees_example = finish-trees small

text_escaped-escape_example : text_escaped (escape (codes "a{b}\n")) ≡ codes "a{b}\n"
text_escaped-escape_example = text_escaped-escape (codes "a{b}\n")

preprocess_script-clean_example :
    segments newline (preprocess_script (codes "a\n # b\nc"))
    ≡ clean (segments newline (codes "a\n # b\nc"))
preprocess_script-clean_example = preprocess_script-clean (codes "a\n # b\nc")

set-Unmarked : Unmarked (codes "set")
unfolding skip_spread strip_negate
set-Unmarked = (refl, refl)

negated_rule : rule_type (codes "..!let") ≡ (set, true)
unfolding rule_type skip_spread strip_negate type_of_key str_eq
negated_rule = refl
