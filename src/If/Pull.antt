-- ===== src/If/Pull.antt =====
-- node_if.c: the whole of _if_pull_if and _if_pull_else.
use autark.Prelude.{ℕ, ◌<◌, ◌≡◌, ap, ◌∙◌, false, Option, none, some, List, length, ◌==◌}
use autark.If.{
  put, Heap, prev_under, node_find_prev_sibling, skip_else, then_first, else_first, pull,
  if_pull_if, if_pull_else,
}
use autark.If.Splice.{prev_from-last, Around, Branch, Spliced, splice-Spliced}

cleared-Around :
    {h : Heap} {n p : ℕ} {next : Option ℕ} {pre post : List ℕ}
    → (n == p) ≡ false
    → Around h n p next pre post
    → Around (record h { child = put h.child n none }) n p next pre post
cleared-Around ne a = record {
  before = rw ne a.before;
  after = a.after;
  n_before = a.n_before;
  n_after = a.n_after;
  distinct = a.distinct;
  apart = a.apart;
}

cleared-Branch :
    {h : Heap} {n : ℕ} {first : Option ℕ} {pre body post : List ℕ}
    → Branch h n first pre body post
    → Branch (record h { child = put h.child n none }) n first pre body post
cleared-Branch b = record {
  nodes = b.nodes;
  n_inside = b.n_inside;
  distinct = b.distinct;
  before_apart = b.before_apart;
  after_apart = b.after_apart;
}

pull-Spliced :
    (fuel : ℕ) (h : Heap) (n p : ℕ) (next first : Option ℕ) (pre body post : List ℕ)
    → h.parent n ≡ some p
    → (n == p) ≡ false
    → Around h n p next pre post
    → Branch (record h { child = put h.child n none }) n first pre body post
    → length pre < fuel
    → length body < fuel
    → (h' : Heap) × (pull fuel h n next (node_find_prev_sibling fuel h n) (h.parent n) (some first)
        ≡ some h')
      × Spliced h' n p pre body post
unfolding pull node_find_prev_sibling prev_under
pull-Spliced fuel h n p next first pre body post e ne a b before inside =
    let g : Heap = record h { child = put h.child n none } in
    let (h', s, spliced) =
      splice-Spliced fuel g n p first next pre body post (cleared-Around ne a) b inside in
    let found = prev_from-last fuel h.next n none (h.child p) pre a.n_before a.before before in
    (
      h',
      ap (λ q. pull fuel h n next (prev_under fuel h n q) q (some first)) e
          ∙ ap (λ r. pull fuel h n next r (some p) (some first)) found
          ∙ s,
      spliced,
    )

-- An `if` whose condition holds is replaced among its siblings, the else block behind it included, by
-- the nodes behind its condition; n itself leads to them and to the siblings behind it, and the nodes
-- have its parent. The siblings before and behind, the `if` and the nodes of the branch are apart, the
-- `if` is not its own parent, and the fuel exceeds the number of siblings before it and of nodes.
pub if_pull_if-Spliced :
    (fuel : ℕ) (h : Heap) (n p mn : ℕ) (pre body post : List ℕ)
    → h.parent n ≡ some p
    → (n == p) ≡ false
    → h.child n ≡ some mn
    → Around h n p (skip_else h (h.next n)) pre post
    → Branch h n (h.next mn) pre body post
    → length pre < fuel
    → length body < fuel
    → (h' : Heap) × (if_pull_if fuel h n ≡ some h') × Spliced h' n p pre body post
unfolding if_pull_if
if_pull_if-Spliced fuel h n p mn pre body post e ne c a b before inside =
    let (h', s, spliced) =
      pull-Spliced fuel h n p (skip_else h (h.next n)) (h.next mn) pre body post e ne a
        (cleared-Branch b) before inside in
    (
      h',
      ap
            (λ q.
              pull fuel h n (skip_else h (h.next n)) (node_find_prev_sibling fuel h n) (h.parent n)
                (then_first h q))
            c
          ∙ unfold then_first in s,
      spliced,
    )

-- An `if` whose condition fails is replaced, with its else block, by the nodes of that block, under
-- the same conditions; without an else block nothing takes its place.
pub if_pull_else-Spliced :
    (fuel : ℕ) (h : Heap) (n p : ℕ) (pre body post : List ℕ)
    → h.parent n ≡ some p
    → (n == p) ≡ false
    → Around h n p (skip_else h (h.next n)) pre post
    → Branch h n (else_first (record h { child = put h.child n none }) (h.next n)) pre body post
    → length pre < fuel
    → length body < fuel
    → (h' : Heap) × (if_pull_else fuel h n ≡ some h') × Spliced h' n p pre body post
unfolding if_pull_else
if_pull_else-Spliced fuel h n p pre body post e ne a b before inside =
    pull-Spliced fuel h n p (skip_else h (h.next n))
      (else_first (record h { child = put h.child n none }) (h.next n)) pre body post e ne a
      (cleared-Branch b) before inside
