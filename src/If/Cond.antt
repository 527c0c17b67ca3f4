-- ===== src/If/Cond.antt =====
-- node_if.c: the evaluation of conditions.
-- A condition is what the code reads of a node: NODE_FLG_NEGATE, the kind of its type, its value, what
-- node_value returns for it, and its children. `none` is a null pointer, and a result `none` is the
-- end of the program by node_fatal.
pub mod Negation
use mathlib.Core.Option
use autark.Prelude.{
  ℕ, Bool, true, false, not, ◌&&◌, ◌||◌, Option, none, some, [], ◌∷◌, take, Bytes, codes, str_eq,
  ltb, ◌==◌, if◌then◌else◌,
}
use autark.Utils.Text.{startswith}
use autark.Utils.Vlist.{is_vlist, VlistIter, vlist_iter_init, vlist_iter_next}

pub data Kind : Type 0 where
  bag can_be_value other : Kind

mutual
  pub data Cond : Type 0 where
    cond : (negate : Bool) → Kind → (value node_value : Option Bytes) → Conds → Cond

  pub data Conds : Type 0 where
    no_child : Conds
    child_next : Cond → Conds → Conds

abbrev pub node_value_of : Cond → Option Bytes
node_value_of (cond negate kind value v kids) = v

-- node_value(mn->child) and node_value(mn->child->next)
unfoldable pub first_value : Conds → Option Bytes
first_value no_child = none
first_value (child_next c cs) = node_value_of c

unfoldable pub second_value : Conds → Option Bytes
unfolding first_value
second_value no_child = none
second_value (child_next c cs) = first_value cs

-- What the tests of two values have in common.
unfoldable pub pair_eval : (Bytes → Bytes → Bool) → Option Bytes → Option Bytes → Bool
pair_eval test none none = true
pair_eval test none (some w) = false
pair_eval test (some v) none = false
pair_eval test (some v) (some w) = test v w

-- strstr(s, p)
unfoldable pub contains : Bytes → Bytes → Bool
contains [] p = startswith (some []) (some p)
contains (c ∷ s) p = startswith (some (c ∷ s)) (some p) || contains s p

-- The loop of _if_in_eval.
unfoldable pub in_from : Option Bytes → Conds → Bool
in_from v no_child = false
in_from v (child_next c cs) = pair_eval str_eq v (node_value_of c) || in_from v cs

unfoldable pub if_in_eval : Conds → Bool
unfolding in_from
if_in_eval no_child = false
if_in_eval (child_next c cs) = in_from (node_value_of c) cs

-- _if_defined_eval, where `defined` says of a name whether node_env_get finds it
unfoldable pub name_defined : (Bytes → Bool) → Option Bytes → Bool
name_defined defined none = false
name_defined defined (some []) = false
name_defined defined (some (c ∷ s)) = defined (c ∷ s)

unfoldable pub if_defined_eval : (Bytes → Bool) → Conds → Bool
unfolding name_defined
if_defined_eval defined no_child = false
if_defined_eval defined (child_next c cs) =
    name_defined defined (node_value_of c) || if_defined_eval defined cs

-- The truth of a value list: by its first item.
unfoldable pub vlist_true : Bytes → Bool
unfolding vlist_iter_init vlist_iter_next
vlist_true op =
    let (more, it) = vlist_iter_next (vlist_iter_init op) in
    let zero_item = it.len == 1 && str_eq (take 1 it.item) (b'0' ∷ []) in
    (more && not zero_item) && (ltb 0 it.len || (vlist_iter_next it).0)

-- The truth of the value of a node.
unfoldable pub value_true : Option Bytes → Bool
unfolding is_vlist vlist_true
value_true none = false
value_true (some op) =
    if is_vlist op then vlist_true op else not (str_eq op []) && not (str_eq op (b'0' ∷ []))

-- if (*op == '!') ++op
unfoldable pub skip_not : Bytes → Bytes
skip_not [] = []
skip_not (c ∷ op) = if c == b'!' then op else c ∷ op

-- The chain of strcmp in _if_cond_eval, with what _if_OR_eval and _if_AND_eval return for the children.
unfoldable pub eval_bag : (Bytes → Bool) → Bytes → Conds → Option Bool → Option Bool → Option Bool
unfolding first_value second_value pair_eval contains if_in_eval if_defined_eval
eval_bag defined op kids any_kid all_kids =
    if str_eq op (codes "eq")
    then some (pair_eval str_eq (first_value kids) (second_value kids))
    else if str_eq op (codes "in")
    then some (if_in_eval kids)
    else if str_eq op (codes "defined")
    then some (if_defined_eval defined kids)
    else if str_eq op (codes "or")
    then any_kid
    else if str_eq op (codes "and")
    then all_kids
    else if str_eq op (codes "prefix")
    then some
        (pair_eval (λ v w. startswith (some v) (some w)) (first_value kids) (second_value kids))
    else if str_eq op (codes "contains")
    then some (pair_eval contains (first_value kids) (second_value kids))
    else none

unfoldable pub eval_kind :
    (Bytes → Bool) → Kind → Bytes → Option Bytes → Conds → Option Bool → Option Bool → Option Bool
unfolding eval_bag value_true skip_not
eval_kind defined bag op v kids any_kid all_kids =
    eval_bag defined (skip_not op) kids any_kid all_kids
eval_kind defined can_be_value op v kids any_kid all_kids = some (value_true v)
eval_kind defined other op v kids any_kid all_kids = none

-- eq = !eq
abbrev pub negate_by : Bool → Option Bool → Option Bool
negate_by neg none = none
negate_by neg (some b) = some (if neg then not b else b)

-- A round of _if_OR_eval and of _if_AND_eval, with the rounds behind it.
abbrev pub or_step : Option Bool → Option Bool → Option Bool
or_step none rest = none
or_step (some true) rest = some true
or_step (some false) rest = rest

abbrev pub and_step : Option Bool → Option Bool → Option Bool
and_step none rest = none
and_step (some true) rest = rest
and_step (some false) rest = some false

-- return mn->child != 0, behind the loop of _if_AND_eval
abbrev pub and_all : Conds → Option Bool → Option Bool
and_all no_child all = some false
and_all (child_next c cs) all = all

-- _if_cond_eval behind its first test
abbrev pub eval_node :
    (Bytes → Bool)
    → Bool
    → Kind
    → Option Bytes
    → Option Bytes
    → Conds
    → Option Bool
    → Option Bool
    → Option Bool
eval_node defined neg kind none v kids any_kid all_kids = none
eval_node defined neg kind (some op) v kids any_kid all_kids =
    negate_by neg (eval_kind defined kind op v kids any_kid (and_all kids all_kids))

unfoldable mutual
  -- _if_cond_eval
  pub if_cond_eval : (Bytes → Bool) → Cond → Option Bool
  if_cond_eval defined (cond neg kind op v kids) =
      eval_node defined neg kind op v kids (if_or_eval defined kids) (if_and_from defined kids)

  -- _if_OR_eval
  pub if_or_eval : (Bytes → Bool) → Conds → Option Bool
  if_or_eval defined no_child = some false
  if_or_eval defined (child_next c cs) = or_step (if_cond_eval defined c) (if_or_eval defined cs)

  -- The loop of _if_AND_eval.
  pub if_and_from : (Bytes → Bool) → Conds → Option Bool
  if_and_from defined no_child = some true
  if_and_from defined (child_next c cs) = and_step (if_cond_eval defined c) (if_and_from defined cs)
