-- ===== src/Build.antt =====
-- script.c: node_build and node_post_build, the two passes over the tree of nodes that run the
-- callbacks of nodes and may be entered again from a callback.
pub mod Invariant
pub mod Once
pub mod Visit
pub mod Ends
pub mod Acyclic
pub mod Cycle
pub mod Phases
pub mod Setup
mod Examples
use autark.Prelude.{
  ℕ, zero, suc, ◌+◌, ◌-◌, Bool, true, false, List, [], ◌∷◌, drop, ltb, ◌==◌, if◌then◌else◌,
}

-- A callback of a node starts, and returns.
pub data Event : Type 0 where
  starts : ℕ → Event
  returns : ℕ → Event

-- What the pass reads of the nodes, which are numbers below `count`: the nodes below a node in
-- their order, whether the node has a callback, and the nodes that the callback passes in its
-- turn, which may depend on what has happened.
pub record Tree : Type 0 where
  pub children : ℕ → List ℕ
  pub has_callback : ℕ → Bool
  pub requests : ℕ → List Event → List ℕ

-- The flag BUILT (POST_BUILT) and the counter bld_calls of each node, the nodes on the stack of
-- contexts, and the callbacks so far, the latest first.
pub record Pass : Type 0 where
  pub passed : ℕ → Bool
  pub calls : ℕ → ℕ
  pub context : List ℕ
  pub trace : List Event

-- `cyclic n` is the end of the program by node_fatal with AK_ERROR_CYCLIC_BUILD_DEPS at n, and
-- `endless` means that the fuel ran out.
pub data Outcome : Type 0 where
  done : Pass → Outcome
  cyclic : ℕ → Outcome
  endless : Outcome

infixl 5 ◌>>=◌
abbrev pub ◌>>=◌ : Outcome → (Pass → Outcome) → Outcome
done s >>= f = f s
cyclic n >>= f = cyclic n
endless >>= f = endless

abbrev pub put_flag : (ℕ → Bool) → ℕ → ℕ → Bool
put_flag f n m = if m == n then true else f m

abbrev pub put_calls : (ℕ → ℕ) → ℕ → ℕ → ℕ → ℕ
put_calls f n k m = if m == n then k else f m

-- _build_subnodes, and the requests of a callback: the pass over nodes one after the other.
unfoldable pub pass_all : (ℕ → Pass → Outcome) → List ℕ → Pass → Outcome
pass_all pass [] s = done s
pass_all pass (n ∷ ns) s = pass n s >>= pass_all pass ns

-- Into the callback: x->bld_calls++ and the push of the context.
unfoldable pub enter : ℕ → Pass → Pass
enter n s = record s {
  calls = put_calls s.calls n (s.calls n + 1);
  context = n ∷ s.context;
  trace = starts n ∷ s.trace;
}

-- Out of it: the pop of the context and x->bld_calls--.
unfoldable pub leave : ℕ → Pass → Pass
leave n s = record s {
  calls = put_calls s.calls n (s.calls n - 1);
  context = drop 1 s.context;
  trace = returns n ∷ s.trace;
}

-- n->flags |= NODE_FLG_BUILT
unfoldable pub mark : ℕ → Pass → Pass
mark n s = record s { passed = put_flag s.passed n }

module _ (t : Tree) where
  -- The callback of a node, which passes the nodes that it requests.
  unfoldable pub callback : (ℕ → Pass → Outcome) → ℕ → Pass → Outcome
  unfolding pass_all enter leave
  callback pass n s =
      pass_all pass (t.requests n (enter n s).trace) (enter n s) >>= λ s'. done (leave n s')

  -- The call of the callback, behind the test for a cycle.
  unfoldable pub run_callback : (ℕ → Pass → Outcome) → ℕ → Pass → Outcome
  run_callback pass n s =
      if t.has_callback n
      then (if ltb 1 (s.calls n + 1) then cyclic n else callback pass n s)
      else done s

  -- node_build and node_post_build
  unfoldable pub node_build : ℕ → ℕ → Pass → Outcome
  unfolding pass_all mark
  node_build zero n s = endless
  node_build (suc fuel) n s =
      let work = pass_all (node_build fuel) (t.children n) s >>= λ s'.
      run_callback (node_build fuel) n s' >>= λ s''. done (mark n s'') in
      if s.passed n then done s else work

-- Before the pass.
abbrev pub fresh : Pass
fresh = record { passed = λ n. false; calls = λ n. 0; context = []; trace = [] }
