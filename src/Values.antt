-- ===== src/Values.antt =====
-- node_join.c, node_dir.c, node_basename.c: the values that nodes compute from their children.
-- A child is what node_value returns for it, `none` for a null pointer, with what node_is_spread
-- says of it; a null pointer that the code reads is the result `none`.
pub mod Join
-- pub mod Dir
mod Examples
use mathlib.Core.Option
use autark.Prelude.{
  ℕ, Bool, false, not, ◌&&◌, Option, none, some, List, [], ◌∷◌, ◌++◌, map, flatten, length, Bytes,
  ltb, ◌==◌, if◌then◌else◌,
}
use autark.Utils.Vlist.{sep, is_vlist, vlist_items}
use autark.Utils.Words.{split_values_add}
use autark.Paths.{path_normalize_cwd}
use autark.Utils.Words.{split_values_add}
use autark.Paths.{path_normalize_cwd}

pub record Child : Type 0 where
  pub val : Option Bytes
  pub spread : Bool

unfoldable pub is_vlist_value : Option Bytes → Bool
unfolding is_vlist
is_vlist_value none = false
is_vlist_value (some v) = is_vlist v

-- The loops of the special cases of _join_value over the items: a byte 1 before each.
unfoldable pub add_items : (Bytes → Bytes) → List Bytes → Bytes → Bytes
add_items change [] xstr = xstr
add_items change (x ∷ xs) xstr = add_items change xs (xstr ++ (sep ∷ change x))

-- The special cases of _join_value, a plain prefix before a list and a plain suffix behind one;
-- `none` if neither applies.
unfoldable pub join_pair : Bytes → Bytes → Option (Option Bytes)
unfolding add_items
join_pair a b =
    if not (is_vlist a) && is_vlist b
    then some (Option.map (λ items. add_items (λ x. a ++ x) items []) (vlist_items b))
    else if not (is_vlist b) && is_vlist a
    then some (Option.map (λ items. add_items (λ x. x ++ b) items []) (vlist_items a))
    else none

-- A round of the loop of _join_value over all children, at a value that is not null.
unfoldable pub join_add : Bool → Bytes → Bytes → Option Bytes
join_add spread v xstr =
    if is_vlist v
    then Option.map (λ items. xstr ++ (sep ∷ flatten items)) (vlist_items v)
    else if spread
    then split_values_add v xstr
    else some (xstr ++ v)

-- The loop.
unfoldable pub join_all : List Child → Option Bytes → Option Bytes
unfolding join_add
join_all [] xstr = xstr
join_all (c ∷ cs) none = none
join_all (c ∷ cs) (some xstr) =
    join_all cs (elim c.val [ none ↦ none | some v ↦ join_add c.spread v xstr ])

-- The values of the two children, if there are two.
unfoldable pub pair_values : List Child → Option (Bytes × Bytes)
pair_values [] = none
pair_values (a ∷ []) = none
pair_values (a ∷ b ∷ []) = elim a.val [
  | none ↦ none
  | some v ↦ elim b.val [ none ↦ none | some w ↦ some (v, w) ]
]
pair_values (a ∷ b ∷ c ∷ cs) = none

-- The special case where it applies, or what the loop over all children returns.
abbrev pub or_all : Option Bytes → Option (Option Bytes) → Option Bytes
or_all all none = all
or_all all (some r) = r

unfoldable pub pick_join : Option Bytes → Option (Bytes × Bytes) → Option Bytes
pick_join all none = all
pick_join all (some (a, b)) = or_all all (join_pair a b)

-- _join_value, when the node has no value yet.
unfoldable pub join_value : List Child → Option Bytes
unfolding pair_values
join_value cs = pick_join (join_all cs (some [])) (pair_values cs)

-- strrchr(val, '.'): the text in front of the last '.', if there is one.
unfoldable pub before_last_dot : Bytes → Option Bytes
before_last_dot [] = none
before_last_dot (c ∷ s) =
    let rest = before_last_dot s in
    elim rest [ none ↦ if c == b'.' then some [] else none | some r ↦ some (c ∷ r) ]

-- _basename_value, when the node has no value yet; a null first value ends the program. The
-- extension that replaces the old one is read from the first child.
unfoldable pub basename_value : List Child → Option Bytes
unfolding before_last_dot
basename_value [] = none
basename_value (a ∷ rest) =
    let base : Bytes → Bytes = λ v. elim (before_last_dot v) [ none ↦ v | some r ↦ r ] in
    elim a.val [ none ↦ none | some v ↦ some (elim rest [ [] ↦ base v | b ∷ cs ↦ base v ++ v ]) ]

-- _node_dir_normalize_add
unfoldable pub dir_normalize_add : Bytes → Bytes → Bytes → Option Bytes
dir_normalize_add dir v xstr =
    let marked = if is_vlist xstr then xstr else sep ∷ xstr in
    let start = if ltb 0 (length xstr) then marked ++ (sep ∷ []) else xstr in
    Option.map (λ p. start ++ p) (path_normalize_cwd v dir)

-- The loops of _dir_value over the values.
unfoldable pub dir_add_all : Bytes → List Bytes → Option Bytes → Option Bytes
unfolding dir_normalize_add
dir_add_all dir [] xstr = xstr
dir_add_all dir (v ∷ vs) none = none
dir_add_all dir (v ∷ vs) (some xstr) = dir_add_all dir vs (dir_normalize_add dir v xstr)

-- The values that the children of the node stand for.
unfoldable pub dir_inputs : List Child → Option (List Bytes)
dir_inputs [] = some []
dir_inputs (c ∷ cs) =
    let rest = dir_inputs cs in
    elim c.val [
      | none ↦ none
      | some v ↦ elim (if is_vlist v then vlist_items v else some (v ∷ [])) [
        | none ↦ none
        | some items ↦ Option.map (λ t. items ++ t) rest
      ]
    ]

-- What _dir_value adds if the text is still empty.
unfoldable pub dir_default : Bytes → Bytes → Option Bytes
dir_default dir xstr =
    if length xstr == 0 then dir_normalize_add dir (b'.' ∷ []) xstr else some xstr

-- _dir_value in the directory `dir`, when the node has no value yet.
unfoldable pub dir_value : Bytes → List Child → Option Bytes
unfolding dir_add_all dir_inputs dir_default
dir_value dir cs = elim (dir_inputs cs) [
  | none ↦ none
  | some vs ↦ elim (dir_add_all dir vs (some [])) [ none ↦ none | some x ↦ dir_default dir x ]
]
