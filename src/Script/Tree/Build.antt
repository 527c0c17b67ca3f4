-- ===== src/Script/Tree/Build.antt =====
-- script.c: the parser builds the tree that the script spells.
use autark.Prelude.{
  ℕ, suc, ◌+◌, ◌≤◌, ◌≡◌, refl, ap, ◌∙◌, false, List, [], ◌∷◌, arith, Bytes, ◌==◌, eq_self,
}
use autark.Script.Text.{text_escaped}
use autark.Script.Tree.{
  value, Node, node, Nodes, none_left, child_next, rule_type, index_of_node, append_nodes, Parse,
  node_text_push, node_text_escaped_push, rule_from, rule, finish_from, finish,
}

mutual
  -- What a script spells: words, bare or in quotes, and rules.
  pub data Spelled : Type 0 where
    bare quoted : Bytes → Spelled
    braced : Bytes → Spellings → Spelled

  pub data Spellings : Type 0 where
    end : Spellings
    next : Spelled → Spellings → Spellings

unfoldable mutual
  unfolding node_text_push node_text_escaped_push rule

  -- The calls that the grammar makes for what is spelled.
  pub read : Spelled → Parse → Parse
  read (bare text) p = node_text_escaped_push text p
  read (quoted text) p = node_text_push text p
  read (braced key ts) p = rule p.nodes (read_all ts (node_text_escaped_push key p))

  pub read_all : Spellings → Parse → Parse
  read_all end p = p
  read_all (next t ts) p = read_all ts (read t p)

unfoldable mutual
  -- The number of nodes.
  pub size : Spelled → ℕ
  size (bare text) = 1
  size (quoted text) = 1
  size (braced key ts) = 1 + size_all ts

  pub size_all : Spellings → ℕ
  size_all end = 0
  size_all (next t ts) = size t + size_all ts

-- The node of a rule behind its closing brace.
abbrev pub rule_node : ℕ → Bytes → Nodes → Node
rule_node n key kids = node n (rule_type key).0 (rule_type key).1 key kids

unfoldable mutual
  -- The tree, its nodes numbered from n on in the order of the text.
  pub tree : ℕ → Spelled → Node
  tree n (bare text) = node n value false (text_escaped text) none_left
  tree n (quoted text) = node n value false text none_left
  tree n (braced key ts) = rule_node n (text_escaped key) (trees (n + 1) ts)

  pub trees : ℕ → Spellings → Nodes
  trees n end = none_left
  trees n (next t ts) = child_next (tree n t) (trees (n + size t) ts)

-- The nodes pushed one behind the other.
abbrev push_nodes : Nodes → List Node → List Node
push_nodes none_left s = s
push_nodes (child_next x xs) s = push_nodes xs (x ∷ s)

-- All indices are at least n.
abbrev Above : ℕ → Nodes → Type 0
Above n none_left = Unit
Above n (child_next x xs) = (n ≤ index_of_node x) × Above n xs

rule_from-push :
    (key : ℕ) (xs kids : Nodes) (s : List Node)
    → Above (suc key) xs
    → rule_from key kids (push_nodes xs s) ≡ rule_from key (append_nodes xs kids) s
rule_from-push key none_left kids s a = refl
rule_from-push key (child_next x xs) kids s a =
    let other : (index_of_node x == key) ≡ false = ground (arith, a.0) in
    rule_from-push key xs kids (x ∷ s) a.1 ∙ unfold rule_from in (rw other refl)

append_none : (xs : Nodes) → append_nodes xs none_left ≡ xs
append_none none_left = refl
append_none (child_next x xs) = ap (child_next x) (append_none xs)

index-tree : (n : ℕ) (t : Spelled) → index_of_node (tree n t) ≡ n
unfolding tree
index-tree n (bare text) = refl
index-tree n (quoted text) = refl
index-tree n (braced key ts) = refl

trees-Above : (m n : ℕ) (ts : Spellings) → m ≤ n → Above m (trees n ts)
unfolding trees
trees-Above m n end h = tt
trees-Above m n (next t ts) h = (rw (index-tree n t) h, trees-Above m (n + size t) ts (omega arith))

close_rule :
    (n m : ℕ) (key : Bytes) (xs : Nodes) (s : List Node)
    → Above (suc n) xs
    → rule n (record { stack = push_nodes xs (node n value false key none_left ∷ s); nodes = m })
      ≡ record { stack = rule_node n key xs ∷ s; nodes = m }
unfolding rule
close_rule n m key xs s a =
    ap (λ st. record { stack = st; nodes = m })
      (rule_from-push n xs none_left (node n value false key none_left ∷ s) a
        ∙ ap (λ ys. rule_from n ys (node n value false key none_left ∷ s)) (append_none xs)
        ∙ rw (eq_self n) (ap (λ ys. rule_node n key ys ∷ s) (append_none xs)))

abbrev with_nodes : List Node → ℕ → Parse
with_nodes stack nodes = record { stack = stack; nodes = nodes }

mutual
  unfolding read size tree node_text_escaped_push

  read-tree :
      (t : Spelled) (p : Parse)
      → read t p ≡ record { stack = tree p.nodes t ∷ p.stack; nodes = p.nodes + size t }
  read-tree (bare text) p = refl
  read-tree (quoted text) p = refl
  read-tree (braced key ts) p =
      let m = p.nodes + 1 + size_all ts in
      let k = text_escaped key in
      ap (rule p.nodes) (read_all-trees ts (node_text_escaped_push key p))
      ∙ close_rule p.nodes m k (trees (p.nodes + 1) ts) p.stack
          (trees-Above (suc p.nodes) (p.nodes + 1) ts (omega arith))
      ∙ ap (with_nodes (rule_node p.nodes k (trees (p.nodes + 1) ts) ∷ p.stack)) (omega arith)

  read_all-trees :
      (ts : Spellings) (p : Parse)
      → read_all ts p
        ≡ record { stack = push_nodes (trees p.nodes ts) p.stack; nodes = p.nodes + size_all ts }
  read_all-trees end p = ap (with_nodes p.stack) (omega arith)
  read_all-trees (next t ts) p =
      ap (read_all ts) (read-tree t p)
      ∙ read_all-trees ts (record { stack = tree p.nodes t ∷ p.stack; nodes = p.nodes + size t })
      ∙ ap (with_nodes (push_nodes (trees (p.nodes + size t) ts) (tree p.nodes t ∷ p.stack)))
          (omega arith)

finish_from-push :
    (xs kids : Nodes) (s : List Node)
    → finish_from kids (push_nodes xs s) ≡ finish_from (append_nodes xs kids) s
finish_from-push none_left kids s = refl
finish_from-push (child_next x xs) kids s =
    finish_from-push xs kids (x ∷ s) ∙ unfold finish_from in refl

-- The parser, begun with an empty stack behind the root, gives the root the tree that the script
-- spells: its nodes are nested and ordered as in the text, words have their escapes resolved and
-- rules their types, and all nodes are numbered in the order of the text.
pub finish-trees :
    (ts : Spellings) → finish (read_all ts (record { stack = []; nodes = 1 })) ≡ trees 1 ts
unfolding finish
finish-trees ts =
    ap finish (read_all-trees ts (record { stack = []; nodes = 1 }))
    ∙ finish_from-push (trees 1 ts) none_left []
    ∙ unfold finish_from in append_none (trees 1 ts)
