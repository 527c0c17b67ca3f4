-- ===== src/Build/Phases.antt =====
-- script.c: script_build behind node_init, the three passes over the tree one after the other.
use mathlib.Core.Path.{subst}
use autark.Prelude.{
  ℕ, suc, ◌+◌, ◌*◌, ◌≤◌, ◌<◌, ◌≡◌, refl, sym, ap, ap₂, ◌∙◌, Bool, true, false, List, [],
}
use autark.Build.{Event, Tree, Pass, Outcome, done, cyclic, endless, ◌>>=◌, node_build, fresh}
use autark.Build.Setup.{node_setup}
use autark.Build.Invariant.{In, Under, IsTree}
use autark.Build.Visit.{node_build_once}
use autark.Build.Ends.{Ends, node_build-Ends}
use autark.Build.Cycle.{Needs, node_build-cyclic}
use autark.Build.Setup.Once.{node_setup_once}

-- Each pass has a flag and callbacks of its own; the counters and the contexts go on.
abbrev pub next_pass : Pass → Pass
next_pass s = record s { passed = λ n. false; trace = [] }

-- The passes of script_build, over the tree with the callbacks `setup`, `build` and `post_build`.
unfoldable pub script_build : Tree → Tree → Tree → (ℕ → Bool) → ℕ → ℕ → ℕ → Outcome
script_build set_up built post is_foreach setup_fuel fuel root =
    node_setup set_up is_foreach setup_fuel root fresh >>= λ s.
    node_build built fuel root (next_pass s) >>= λ b. node_build post fuel root (next_pass b)

next_fresh : (s : Pass) → ((n : ℕ) → s.calls n ≡ 0) → s.context ≡ [] → next_pass s ≡ fresh
next_fresh s z c =
    ap₂ (λ k x. record { passed = λ n. false; calls = k; context = x; trace = [] }) (λ i n. z n i) c

-- The pass over a tree from its start on passes all nodes, or reports a cycle that is one.
data Passed (t : Tree) (root : ℕ) (o : Outcome) : Type 0 where
  all_passed :
      (s : Pass)
      → o ≡ done s
      → ((n : ℕ) → Under t root n → s.passed n ≡ true)
      → ((n : ℕ) → s.calls n ≡ 0)
      → s.context ≡ []
      → Passed t root o
  cycle_found : (k : ℕ) → o ≡ cyclic k → Needs t k k → Passed t root o

module _ (count top : ℕ) where
  -- The nodes of a tree are below `count`, with those that callbacks request, and lie at most
  -- `top` deep.
  pub record IsBounded (t : Tree) (rank : ℕ → ℕ) : Type 0 where
    pub tree : IsTree t rank
    pub children_lt : (n m : ℕ) → n < count → In m (t.children n) → m < count
    pub requests_lt : (n m : ℕ) → n < count → (tr : List Event) → In m (t.requests n tr) → m < count
    pub rank_le : (n : ℕ) → n < count → rank n ≤ top

  abbrev pub enough : ℕ
  enough = suc (count * suc top + top)

  build-Passed :
      (t : Tree) (rank : ℕ → ℕ) (root : ℕ)
      → IsBounded t rank
      → root < count
      → Passed t root (node_build t enough root fresh)
  build-Passed t rank root b l =
      outcome (node_build t enough root fresh) refl
        (node_build-Ends t rank b.tree count top b.children_lt b.requests_lt b.rank_le root l)
    where
      outcome :
          (o : Outcome)
          → node_build t enough root fresh ≡ o
          → Ends (node_build t enough root fresh)
          → Passed t root (node_build t enough root fresh)
      outcome (done s) q e =
          let (all, once, sorted, idle, stack) = node_build_once t rank enough root s b.tree q in
          all_passed s q all idle stack
      outcome (cyclic k) q e = cycle_found k q (node_build-cyclic t rank b.tree enough root k q)
      outcome endless q e = absurd (e q)

  -- How the three passes end: each has passed all nodes under the root, in its turn; or the second
  -- or the third has met a cycle.
  pub data Finished (set_up built post : Tree) (is_foreach : ℕ → Bool) (root : ℕ) (o : Outcome)
      : Type 0 where
    finished :
        (s b p : Pass)
        → node_setup set_up is_foreach (suc count) root fresh ≡ done s
        → node_build built enough root (next_pass s) ≡ done b
        → o ≡ done p
        → ((n : ℕ) → Under set_up root n → s.passed n ≡ true)
        → ((n : ℕ) → Under built root n → b.passed n ≡ true)
        → ((n : ℕ) → Under post root n → p.passed n ≡ true)
        → p.context ≡ []
        → Finished set_up built post is_foreach root o
    build_cycle :
        (k : ℕ) → o ≡ cyclic k → Needs built k k → Finished set_up built post is_foreach root o
    post_build_cycle :
        (k : ℕ) → o ≡ cyclic k → Needs post k k → Finished set_up built post is_foreach root o

  module _ (set_up built post : Tree) (rank post_rank : ℕ → ℕ) (is_foreach : ℕ → Bool) (root : ℕ)
      (children_lt : (n m : ℕ) → n < count → In m (set_up.children n) → m < count)
      (requests_lt : (n m : ℕ)
        → n < count
        → (tr : List Event) → In m (set_up.requests n tr)
        → m < count)
      (build_tree : IsBounded built rank) (post_tree : IsBounded post post_rank)
      (root_lt : root < count) where
    last_pass : Pass → Outcome
    last_pass b = node_build post enough root (next_pass b)

    post-Finished :
        (s b : Pass)
        → node_setup set_up is_foreach (suc count) root fresh ≡ done s
        → node_build built enough root (next_pass s) ≡ done b
        → ((n : ℕ) → Under set_up root n → s.passed n ≡ true)
        → ((n : ℕ) → Under built root n → b.passed n ≡ true)
        → Passed post root (node_build post enough root fresh)
        → Finished set_up built post is_foreach root (node_build post enough root fresh)
    post-Finished s b run_s run_b all_set all_built (all_passed p q all idle stack) =
        finished s b p run_s run_b q all_set all_built all stack
    post-Finished s b run_s run_b all_set all_built (cycle_found k q c) = post_build_cycle k q c

    build-Finished :
        (s : Pass)
        → node_setup set_up is_foreach (suc count) root fresh ≡ done s
        → next_pass s ≡ fresh
        → ((n : ℕ) → Under set_up root n → s.passed n ≡ true)
        → Passed built root (node_build built enough root fresh)
        → Finished set_up built post is_foreach root
            (node_build built enough root fresh >>= last_pass)
    unfolding last_pass
    build-Finished s run_s begins all_set (all_passed b q all idle stack) =
        let same =
          ap (λ o. o >>= last_pass) q
          ∙ ap (node_build post enough root) (next_fresh b idle stack) in
        subst (Finished set_up built post is_foreach root) (sym same) (
          post-Finished s b run_s (ap (node_build built enough root) begins ∙ q) all_set all
            (build-Passed post post_rank root post_tree root_lt))
    build-Finished s run_s begins all_set (cycle_found k q c) =
        build_cycle k (ap (λ o. o >>= last_pass) q) c

    -- The set-up, the build and the post-build of a script, one after the other over trees of nodes
    -- below `count`, end with the fuel of this statement, whatever their callbacks ask for: either
    -- each of them has passed all nodes under the root and no context is left, or the build or the
    -- post-build has ended the program at a node that needs itself.
    pub script_build-Finished :
        Finished set_up built post is_foreach root
          (script_build set_up built post is_foreach (suc count) enough root)
    unfolding script_build last_pass
    script_build-Finished =
        let (s, q, all, once, stack, counters) =
          node_setup_once set_up count root is_foreach children_lt requests_lt root_lt in
        let begins : next_pass s ≡ fresh = next_fresh s (λ n. ap (λ f. f n) counters) stack in
        let same : script_build set_up built post is_foreach (suc count) enough root
            ≡ (node_build built enough root fresh >>= last_pass) =
          ap (λ o. o >>= λ r. node_build built enough root (next_pass r) >>= last_pass) q
          ∙ ap (λ r. node_build built enough root r >>= last_pass) begins in
        subst (Finished set_up built post is_foreach root) (sym same)
          (build-Finished s q begins all (build-Passed built rank root build_tree root_lt))
