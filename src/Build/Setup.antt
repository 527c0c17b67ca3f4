-- ===== src/Build/Setup.antt =====
-- script.c: node_setup, which sets its flag first and so needs no test for a cycle.
pub mod Flags
pub mod Sets
pub mod Once
use autark.Prelude.{ℕ, zero, suc, Bool, true, false, ◌||◌, List, [], ◌∷◌, drop, if◌then◌else◌}
use autark.Build.{
  Event, starts, returns, Tree, Pass, Outcome, done, cyclic, endless, ◌>>=◌, pass_all, mark,
}

abbrev pub some_below : List ℕ → Bool
some_below [] = false
some_below (c ∷ cs) = true

-- _node_context_push and _node_context_pop
abbrev pub push_context : ℕ → Pass → Pass
push_context n s = record s { context = n ∷ s.context }

abbrev pub pop_context : Pass → Pass
pop_context s = record s { context = drop 1 s.context }

abbrev pub log_event : Event → Pass → Pass
log_event e s = record s { trace = e ∷ s.trace }

module _ (t : Tree) where
  -- n->setup(n), if there is one, which sets up the nodes whose values it asks for.
  unfoldable pub setup_callback : (ℕ → Pass → Outcome) → ℕ → Pass → Outcome
  unfolding pass_all
  setup_callback setup n s =
      if t.has_callback n
      then (pass_all setup (t.requests n (starts n ∷ s.trace)) (log_event (starts n) s) >>= λ s'.
          done (log_event (returns n) s'))
      else done s

  -- The body of node_setup behind the flag; a foreach node comes before the nodes below it.
  unfoldable pub setup_body : Bool → (ℕ → Pass → Outcome) → ℕ → Pass → Outcome
  unfolding setup_callback
  setup_body true setup n s = setup_callback setup n (push_context n s) >>= λ s'.
      pass_all setup (t.children n) s' >>= λ s''. done (pop_context s'')
  setup_body false setup n s =
      if some_below (t.children n) || t.has_callback n
      then (pass_all setup (t.children n) (push_context n s) >>= λ s'.
          setup_callback setup n s' >>= λ s''. done (pop_context s''))
      else done s

  module _ (is_foreach : ℕ → Bool) where
    -- node_setup
    unfoldable pub node_setup : ℕ → ℕ → Pass → Outcome
    unfolding setup_body mark
    node_setup zero n s = endless
    node_setup (suc fuel) n s =
        let work = setup_body (is_foreach n) (node_setup fuel) n (mark n s) in
        if s.passed n then done s else work
