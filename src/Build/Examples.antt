-- ===== src/Build/Examples.antt =====
-- script.c: passes over small trees, and the theorems at them.
use autark.Prelude.{
  ℕ, zero, suc, ◌+◌, ◌-◌, ◌*◌, ◌<◌, ◌≡◌, refl, ◌⊎◌, inl, inr, Bool, true, false, List, [], ◌∷◌,
  arith, ◌==◌, if◌then◌else◌, ==_iff, Bool-cases,
}
use autark.Build.{
  Event, starts, returns, Tree, Pass, Outcome, done, cyclic, endless, pass_all, enter, leave, mark,
  callback, run_callback, node_build, fresh, put_flag, put_calls,
}
use autark.Build.Invariant.{In, Under, IsTree, IsOrdered, starts_count}
use autark.Build.Visit.{node_build_once}
use autark.Build.Ends.{Ends, node_build-Ends}
use autark.Build.Setup.{setup_callback, setup_body, node_setup}
use autark.Build.Setup.Once.{node_setup_once}
use autark.Build.Cycle.{Needs, node_build-cyclic}
use autark.Build.Phases.{script_build, enough, IsBounded, Finished, script_build-Finished}
use autark.Build.Acyclic.{node_build-Completes}

-- Node 0 is above 1 and 2, which have callbacks.
abbrev two_below : ℕ → List ℕ
two_below zero = 1 ∷ 2 ∷ []
two_below (suc n) = []

abbrev with_callback : ℕ → Bool
with_callback zero = false
with_callback (suc n) = true

-- The callback of 1 requests 2.
abbrev one_wants_two : ℕ → List Event → List ℕ
one_wants_two n tr = if n == 1 then 2 ∷ [] else []

-- The callbacks of 1 and 2 request each other.
abbrev both_want : ℕ → List Event → List ℕ
both_want n tr = if n == 1 then 2 ∷ [] else (if n == 2 then 1 ∷ [] else [])

abbrev chain : Tree
chain = record { children = two_below; has_callback = with_callback; requests = one_wants_two }

abbrev circle : Tree
circle = record { children = two_below; has_callback = with_callback; requests = both_want }

abbrev trace_of : Outcome → List Event
trace_of (done s) = s.trace
trace_of (cyclic n) = []
trace_of endless = []

-- The callback of 1 waits for that of 2, which is not run again.
chain_trace :
    trace_of (node_build chain 4 0 fresh) ≡ returns 1 ∷ returns 2 ∷ starts 2 ∷ starts 1 ∷ []
unfolding node_build pass_all enter leave mark callback run_callback
chain_trace = refl

circle_reported : node_build circle 9 0 fresh ≡ cyclic 1
unfolding node_build pass_all enter leave mark callback run_callback
circle_reported = refl

-- 0 comes behind 1, and 1 behind 2.
abbrev later : ℕ → ℕ
later n = 2 - n

below_zero : (n c : ℕ) → In c (two_below n) → later c < later n
below_zero zero c x = elim x [
  | inl e ↦ rw e (omega arith)
  | inr y ↦ elim y [ inl e ↦ rw e (omega arith) | inr z ↦ absurd z ]
]
below_zero (suc n) c x = absurd x

later-IsTree :
    (r : ℕ → List Event → List ℕ)
    → IsTree (record { children = two_below; has_callback = with_callback; requests = r }) later
later-IsTree r = record { falls = below_zero }

abbrev chain_done : Pass
chain_done = record {
  passed = put_flag (put_flag (put_flag (λ n. false) 2) 1) 0;
  calls = put_calls (put_calls (put_calls (put_calls (λ n. 0) 1 1) 2 1) 2 0) 1 0;
  context = [];
  trace = returns 1 ∷ returns 2 ∷ starts 2 ∷ starts 1 ∷ [];
}

chain_run : node_build chain 4 0 fresh ≡ done chain_done
unfolding node_build pass_all enter leave mark callback run_callback
chain_run = refl

node_build_once_example :
    ((n : ℕ) → Under chain 0 n → chain_done.passed n ≡ true)
    × ((n : ℕ)
        → starts_count n chain_done.trace
          ≡ (if chain_done.passed n then (if with_callback n then 1 else 0) else 0))
    × IsOrdered chain chain_done.trace
    × ((n : ℕ) → chain_done.calls n ≡ 0)
    × (chain_done.context ≡ [])
node_build_once_example =
    node_build_once chain later 4 0 chain_done (later-IsTree one_wants_two) chain_run

two_below_small : (n m : ℕ) → n < 3 → In m (two_below n) → m < 3
two_below_small zero m l x = elim x [
  | inl e ↦ omega (arith, e)
  | inr y ↦ elim y [ inl e ↦ omega (arith, e) | inr z ↦ absurd z ]
]
two_below_small (suc n) m l x = absurd x

both_want_small : (n m : ℕ) → n < 3 → (tr : List Event) → In m (both_want n tr) → m < 3
both_want_small n m l tr x = elim (Bool-cases (n == 1)) [
  | inl y ↦ one_of 2 m (rw y at x) (omega arith)
  | inr o ↦ elim (Bool-cases (n == 2)) [
    | inl y ↦ one_of 1 m (rw (o, y) at x) (omega arith)
    | inr p ↦ (let none : ⊥ = rw (o, p) at x in absurd none)
  ]
]
  where
    one_of : (k m : ℕ) → In m (k ∷ []) → k < 3 → m < 3
    one_of k m x l = elim x [ inl e ↦ omega (arith, e, l) | inr z ↦ absurd z ]

node_build-Ends_example : Ends (node_build circle (suc (3 * suc 2 + 2)) 0 fresh)
node_build-Ends_example =
    node_build-Ends circle later (later-IsTree both_want) 3 2 two_below_small both_want_small
      (λ n l. omega arith) 0 (omega arith)

wants_later : (n m : ℕ) (tr : List Event) → In m (one_wants_two n tr) → later m < later n
wants_later n m tr x = elim (Bool-cases (n == 1)) [
  | inl y ↦
      let x' : (m ≡ 2) ⊎ ⊥ = rw y at x in
      elim x' [ inl e ↦ rw ((==_iff n 1).0 y, e) (omega arith) | inr z ↦ absurd z ]
  | inr o ↦ (let none : ⊥ = rw o at x in absurd none)
]

node_build-Completes_example :
    (s : Pass) × (node_build chain (suc (later 0)) 0 fresh ≡ done s)
    × ((n : ℕ) → Under chain 0 n → s.passed n ≡ true)
    × ((n : ℕ)
        → starts_count n s.trace ≡ (if s.passed n then (if with_callback n then 1 else 0) else 0))
node_build-Completes_example =
    node_build-Completes chain later (later-IsTree one_wants_two) wants_later 0

-- Node 1 is a foreach node.
abbrev only_one : ℕ → Bool
only_one n = n == 1

-- The set-up of 1 asks for the value of 2, whose set-up asks for that of 1, which is on its way.
setup_trace :
    trace_of (node_setup circle only_one 4 0 fresh)
    ≡ returns 1 ∷ returns 2 ∷ starts 2 ∷ starts 1 ∷ []
unfolding node_setup setup_body setup_callback pass_all mark
setup_trace = refl

node_setup_once_example :
    (s : Pass) × (node_setup circle only_one 4 0 fresh ≡ done s)
    × ((n : ℕ) → Under circle 0 n → s.passed n ≡ true)
    × ((n : ℕ)
        → starts_count n s.trace ≡ (if s.passed n then (if with_callback n then 1 else 0) else 0))
    × (s.context ≡ [])
    × (s.calls ≡ fresh.calls)
node_setup_once_example =
    node_setup_once circle 3 0 only_one two_below_small both_want_small (omega arith)

node_build-cyclic_example : Needs circle 1 1
node_build-cyclic_example =
    node_build-cyclic circle later (later-IsTree both_want) 9 0 1 circle_reported

circle-IsBounded : IsBounded 3 2 circle later
circle-IsBounded = record {
  tree = later-IsTree both_want;
  children_lt = two_below_small;
  requests_lt = both_want_small;
  rank_le = λ n l. omega arith;
}

script_build-Finished_example :
    Finished 3 2 circle circle circle only_one 0
      (script_build circle circle circle only_one 4 (enough 3 2) 0)
script_build-Finished_example =
    script_build-Finished 3 2 circle circle circle later later only_one 0 two_below_small
      both_want_small circle-IsBounded circle-IsBounded (omega arith)
