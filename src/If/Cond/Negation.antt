-- ===== src/If/Cond/Negation.antt =====
-- node_if.c: negations of conditions.
use autark.Prelude.{Bool, not, Option, none, some}
use autark.If.Cond.{Cond, cond, Conds, no_child, child_next}

-- The condition with the other negation.
abbrev pub flip : Cond → Cond
flip (cond neg kind op v kids) = cond (not neg) kind op v kids

abbrev pub flip_all : Conds → Conds
flip_all no_child = no_child
flip_all (child_next c cs) = child_next (flip c) (flip_all cs)

-- A result negated, and an end of the program kept.
abbrev pub opposite : Option Bool → Option Bool
opposite none = none
opposite (some b) = some (not b)
