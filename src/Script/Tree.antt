-- ===== src/Script/Tree.antt =====
-- script.c: the stack of the parser, from which the tree of a script is built.
-- The grammar scriptx.leg calls _node_text_push and _node_text_escaped_push for the words of the
-- script, and _rule behind the closing brace of a rule; a node keeps its place in `nodes` for its
-- identity, where the program compares pointers.
pub mod RuleType
pub mod Build
use autark.Prelude.{
  ℕ, ◌+◌, Bool, true, false, ◌&&◌, ◌||◌, List, [], ◌∷◌, Bytes, codes, str_eq, ◌==◌, if◌then◌else◌,
}
use autark.Script.Text.{text_escaped}

-- The constants NODE_TYPE_VALUE to NODE_TYPE_INSTALL_SOURCES of script.h.
pub data NodeType : Type 0 where
  value subst set join basename dir find fetch_url : NodeType
  script bag meta check include if_ run cc configure foreach in_sources option : NodeType
  error echo install macro call install_sources : NodeType

mutual
  -- struct xnode: its index, type, NODE_FLG_NEGATE, value, and what `child` and `next` link.
  pub data Node : Type 0 where
    node : (index : ℕ) → NodeType → (negate : Bool) → (text : Bytes) → Nodes → Node

  pub data Nodes : Type 0 where
    none_left : Nodes
    child_next : Node → Nodes → Nodes

-- The key of a rule as _rule_type reads it: behind a leading "..", and whether a '!' comes next.
unfoldable pub skip_spread : Bytes → Bytes
skip_spread [] = []
skip_spread (c ∷ []) = c ∷ []
skip_spread (c ∷ d ∷ key) = if c == b'.' && d == b'.' then key else c ∷ d ∷ key

unfoldable pub strip_negate : Bytes → Bytes × Bool
strip_negate [] = ([], false)
strip_negate (c ∷ key) = if c == b'!' then (key, true) else (c ∷ key, false)

-- The chain of strcmp in _rule_type.
unfoldable pub type_of_key : Bytes → NodeType
type_of_key key =
    if str_eq key (codes "$") || (str_eq key (codes "@") || str_eq key (codes "@@"))
    then subst
    else if str_eq key (codes "^")
    then join
    else if str_eq key (codes "set") || (str_eq key (codes "env") || str_eq key (codes "let"))
    then set
    else if str_eq key (codes "check") || str_eq key (codes "prepare")
    then check
    else if str_eq key (codes "include")
    then include
    else if str_eq key (codes "if")
    then if_
    else if str_eq key (codes "run") || str_eq key (codes "run-on-install")
    then run
    else if str_eq key (codes "meta")
    then meta
    else if str_eq key (codes "cc")
        || (str_eq key (codes "cxx")
            || (str_eq key (codes "host-cc") || str_eq key (codes "host-cxx")))
    then cc
    else if str_eq key (codes "configure")
    then configure
    else if str_eq key (codes "%")
    then basename
    else if str_eq key (codes "foreach")
    then foreach
    else if str_eq key (codes "in-sources")
    then in_sources
    else if str_eq key (codes "S")
        || (str_eq key (codes "C") || (str_eq key (codes "SS") || str_eq key (codes "CC")))
    then dir
    else if str_eq key (codes "option")
    then option
    else if str_eq key (codes "error")
    then error
    else if str_eq key (codes "echo")
    then echo
    else if str_eq key (codes "install")
    then install
    else if str_eq key (codes "library")
    then find
    else if str_eq key (codes "macro")
    then macro
    else if str_eq key (codes "call")
    then call
    else if str_eq key (codes "install-sources")
    then install_sources
    else if str_eq key (codes "fetch-url")
    then fetch_url
    else bag

unfoldable pub rule_type : Bytes → NodeType × Bool
unfolding skip_spread strip_negate type_of_key
rule_type key = let (k, negate) = strip_negate (skip_spread key) in (type_of_key k, negate)

abbrev pub index_of_node : Node → ℕ
index_of_node (node i type negate text kids) = i

abbrev pub append_nodes : Nodes → Nodes → Nodes
append_nodes none_left ys = ys
append_nodes (child_next x xs) ys = child_next x (append_nodes xs ys)

-- The parser: its stack, whose top comes first, and how many nodes are registered.
pub record Parse : Type 0 where
  pub stack : List Node
  pub nodes : ℕ

-- _node_text_push, with _push_and_register and _node_register
unfoldable pub node_text_push : Bytes → Parse → Parse
node_text_push text p = record {
  stack = node p.nodes value false text none_left ∷ p.stack;
  nodes = p.nodes + 1;
}

unfoldable pub node_text_escaped_push : Bytes → Parse → Parse
unfolding node_text_push
node_text_escaped_push text p = node_text_push (text_escaped text) p

-- The key node as _rule leaves it, with the nodes `kids` in front of its children.
unfoldable pub close_key : Nodes → Node → Node
close_key kids (node i type negate text old) =
    let (t, neg) = rule_type text in node i t (negate || neg) text (append_nodes kids old)

-- The loop of _rule, with the nodes that it has taken from the stack.
unfoldable pub rule_from : ℕ → Nodes → List Node → List Node
unfolding close_key
rule_from key kids [] = []
rule_from key kids (x ∷ s) =
    let rest = rule_from key (child_next x kids) s in
    if index_of_node x == key then close_key kids x ∷ s else rest

unfoldable pub rule : ℕ → Parse → Parse
unfolding rule_from
rule key p = record p { stack = rule_from key none_left p.stack }

-- The loop of _finish: what the children of the root are in the end.
unfoldable pub finish_from : Nodes → List Node → Nodes
finish_from kids [] = kids
finish_from kids (x ∷ s) = finish_from (child_next x kids) s

unfoldable pub finish : Parse → Nodes
unfolding finish_from
finish p = finish_from none_left p.stack
