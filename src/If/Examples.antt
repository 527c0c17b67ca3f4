-- ===== src/If/Examples.antt =====
-- node_if.c: the theorems at a concrete heap.
use autark.Prelude.{◌≡◌, refl, false, none, some, [], ◌∷◌, arith, codes, ◌==◌}
use autark.If.{Links, put, Heap, skip_else, else_first, if_pull_if, if_pull_else}
use autark.If.Cond.{Cond, cond, no_child, can_be_value}
use autark.If.Splice.{Around, Branch, Spliced}
use autark.If.Pull.{if_pull_if-Spliced, if_pull_else-Spliced}

abbrev no_links : Links
no_links i = none

-- Node 0 has the children 1, 2, 3 and 4; 2 is an `if` with the condition 5 and the nodes 6 and 7, and
-- 3 its else block with the node 8.
abbrev script_heap : Heap
script_heap = record {
  child = put (put (put no_links 0 (some 1)) 2 (some 5)) 3 (some 8);
  next =
      put (put (put (put (put no_links 1 (some 2)) 2 (some 3)) 3 (some 4)) 5 (some 6)) 6 (some 7);
  parent = put no_links 2 (some 0);
  else_value = λ i. i == 3;
}

script-Around : Around script_heap 2 0 (some 4) (1 ∷ []) (4 ∷ [])
script-Around = record {
  before = (refl, refl);
  after = (refl, refl);
  n_before = (refl, tt);
  n_after = (refl, tt);
  distinct = (tt, tt);
  apart = ((refl, tt), tt);
}

then-Branch : Branch script_heap 2 (some 6) (1 ∷ []) (6 ∷ 7 ∷ []) (4 ∷ [])
then-Branch = record {
  nodes = (refl, (refl, refl));
  n_inside = (refl, (refl, tt));
  distinct = ((refl, tt), (tt, tt));
  before_apart = ((refl, (refl, tt)), tt);
  after_apart = ((refl, tt), ((refl, tt), tt));
}

if_pull_if-Spliced_example :
    (h' : Heap) × (if_pull_if 3 script_heap 2 ≡ some h')
    × Spliced h' 2 0 (1 ∷ []) (6 ∷ 7 ∷ []) (4 ∷ [])
unfolding skip_else
if_pull_if-Spliced_example =
    if_pull_if-Spliced 3 script_heap 2 0 5 (1 ∷ []) (6 ∷ 7 ∷ []) (4 ∷ []) refl refl refl
      script-Around then-Branch (omega arith) (omega arith)

else-Branch : Branch script_heap 2 (some 8) (1 ∷ []) (8 ∷ []) (4 ∷ [])
else-Branch = record {
  nodes = (refl, refl);
  n_inside = (refl, tt);
  distinct = (tt, tt);
  before_apart = ((refl, tt), tt);
  after_apart = ((refl, tt), tt);
}

if_pull_else-Spliced_example :
    (h' : Heap) × (if_pull_else 3 script_heap 2 ≡ some h')
    × Spliced h' 2 0 (1 ∷ []) (8 ∷ []) (4 ∷ [])
unfolding skip_else else_first
if_pull_else-Spliced_example =
    if_pull_else-Spliced 3 script_heap 2 0 (1 ∷ []) (8 ∷ []) (4 ∷ []) refl refl script-Around
      else-Branch (omega arith) (omega arith)

-- A value that is not empty, and one that is.
abbrev set_value : Cond
set_value = cond false can_be_value (some (codes "${A}")) (some (codes "1")) no_child

abbrev no_value : Cond
no_value = cond false can_be_value (some (codes "${B}")) none no_child
