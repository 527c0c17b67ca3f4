-- ===== src/If.antt =====
-- node_if.c: an `if` replaced by the branch that its condition chooses.
-- Nodes are numbers, and the pointers of struct node are functions of a heap, `none` for a null
-- pointer; a null pointer that is read gives the result `none`.
pub mod Siblings
pub mod Splice
pub mod Pull
pub mod Cond
mod Examples
use autark.Prelude.{ℕ, zero, suc, Bool, false, Option, none, some, ◌==◌, if◌then◌else◌}

abbrev pub Links : Type 0
Links = ℕ → Option ℕ

-- The links with the one of node k set to v.
abbrev pub put : Links → ℕ → Option ℕ → Links
put f k v i = if k == i then v else f i

-- What the code reads and writes of the nodes, and which of them have the value "else".
pub record Heap : Type 0 where
  pub child : Links
  pub next : Links
  pub parent : Links
  pub else_value : ℕ → Bool

-- The loop of node_find_prev_sibling, for at most `fuel` siblings.
unfoldable pub prev_from : ℕ → Links → ℕ → Option ℕ → Option ℕ → Option (Option ℕ)
prev_from zero next n prev c = none
prev_from (suc fuel) next n prev none = some none
prev_from (suc fuel) next n prev (some c) =
    let later = prev_from fuel next n (some c) (next c) in if c == n then some prev else later

-- The siblings are the children of the parent, if there is one.
unfoldable pub prev_under : ℕ → Heap → ℕ → Option ℕ → Option (Option ℕ)
unfolding prev_from
prev_under fuel h n none = some none
prev_under fuel h n (some p) = prev_from fuel h.next n none (h.child p)

unfoldable pub node_find_prev_sibling : ℕ → Heap → ℕ → Option (Option ℕ)
unfolding prev_under
node_find_prev_sibling fuel h n = prev_under fuel h n (h.parent n)

-- _if_node_is_else
unfoldable pub if_node_is_else : Heap → Option ℕ → Bool
if_node_is_else h none = false
if_node_is_else h (some n) = h.else_value n

-- The node behind an else block.
unfoldable pub skip_else : Heap → Option ℕ → Option ℕ
skip_else h none = none
skip_else h (some e) = if h.else_value e then h.next e else some e

-- A round of the loop below at the node nn, by the node behind it.
unfoldable pub adopt_behind :
    (Option ℕ → Heap → Option Heap) → Option ℕ → ℕ → Heap → Option ℕ → Option Heap
adopt_behind rest next nn h none = some (record h { next = put h.next nn next })
adopt_behind rest next nn h (some y) = rest (some y) h

-- The loop that hands the nodes from `nn` on to the parent p, and links the last one to `next`.
unfoldable pub adopt : ℕ → ℕ → Option ℕ → Option ℕ → Heap → Option Heap
unfolding adopt_behind
adopt zero p next nn h = none
adopt (suc fuel) p next none h = some h
adopt (suc fuel) p next (some nn) h =
    adopt_behind (λ y g. adopt fuel p next y g) next nn
      (record h { parent = put h.parent nn (some p) }) (h.next nn)

-- prev->next = x, or n->parent->child = x if there is no previous node.
unfoldable pub link : Option ℕ → ℕ → Option ℕ → Heap → Heap
link none p x h = record h { child = put h.child p x }
link (some q) p x h = record h { next = put h.next q x }

-- What both functions do in the end: the nodes from `first` on take the place of n, and `next` comes
-- behind them.
unfoldable pub splice : ℕ → ℕ → ℕ → Option ℕ → Option ℕ → Option ℕ → Heap → Option Heap
unfolding link adopt
splice fuel n p prev none next h = some (link prev p next (record h { next = put h.next n next }))
splice fuel n p prev (some nn) next h =
    adopt fuel p next (some nn) (link prev p (some nn) (record h { next = put h.next n (some nn) }))

-- The nodes that _if_pull_if puts in the place of the `if`; `none` for a missing condition.
unfoldable pub then_first : Heap → Option ℕ → Option (Option ℕ)
then_first h none = none
then_first h (some mn) = some (h.next mn)

-- The nodes that _if_pull_else puts in the place of the `if`.
unfoldable pub else_first : Heap → Option ℕ → Option ℕ
else_first h none = none
else_first h (some e) = if h.else_value e then h.child e else none

-- What is common to both functions, with the previous sibling and the parent of n.
unfoldable pub pull :
    ℕ → Heap → ℕ → Option ℕ → Option (Option ℕ) → Option ℕ → Option (Option ℕ) → Option Heap
unfolding splice
pull fuel h n next prev p none = none
pull fuel h n next none p (some first) = none
pull fuel h n next (some prev) none (some first) = none
pull fuel h n next (some prev) (some p) (some first) =
    splice fuel n p prev first next (record h { child = put h.child n none })

-- _if_pull_if, for at most `fuel` siblings and nodes of the branch.
unfoldable pub if_pull_if : ℕ → Heap → ℕ → Option Heap
unfolding pull
if_pull_if fuel h n =
    pull fuel h n (skip_else h (h.next n)) (node_find_prev_sibling fuel h n) (h.parent n)
      (then_first h (h.child n))

-- _if_pull_else; the child of the else block is read behind n->child = 0.
unfoldable pub if_pull_else : ℕ → Heap → ℕ → Option Heap
unfolding pull
if_pull_else fuel h n =
    pull fuel h n (skip_else h (h.next n)) (node_find_prev_sibling fuel h n) (h.parent n)
      (some (else_first (record h { child = put h.child n none }) (h.next n)))
