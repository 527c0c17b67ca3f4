-- ===== src/Build/Acyclic.antt =====
-- script.c: without a circle of requests node_build reports none.
use autark.Prelude.{
  ℕ, zero, suc, ◌+◌, ◌<◌, ◌≡◌, refl, sym, inl, inr, true, false, List, [], ◌∷◌, arith, ltb, ◌==◌,
  if◌then◌else◌, ==_iff, Bool-cases,
}
use autark.Build.{
  Event, Tree, Pass, Outcome, done, ◌>>=◌, pass_all, enter, leave, mark, callback, run_callback,
  node_build, fresh,
}
use autark.Build.Invariant.{
  In, Under, here, IsTree, Inv, Keeps, Passes, Under-child, Keeps-refl, Keeps-trans, starts_count,
}
use autark.Build.Once.{all-Keeps, all_above, enter-Inv}
use autark.Build.Visit.{visit-Passes, fresh-Inv, rank_apart, node_build_once}

abbrev pub Completes : Outcome → Type 0
Completes o = (s : Pass) × (o ≡ done s)

bind-Completes :
    (m : Outcome) (f : Pass → Outcome)
    → Completes m
    → ((s : Pass) → m ≡ done s → Completes (f s))
    → Completes (m >>= f)
bind-Completes m f (s, q) g = let (r, e) = g s q in (r, rw q e)

module _ (t : Tree) (order : ℕ → ℕ) (tree : IsTree t order)
    (falls : (n m : ℕ) (tr : List Event) → In m (t.requests n tr) → order m < order n) where
  -- The callbacks that run are of nodes further up.
  AllAbove : ℕ → Pass → Type 0
  AllAbove n s = (d : ℕ) → 0 < s.calls d → order n < order d

  module _ (pass : ℕ → Pass → Outcome)
      (ih : (n : ℕ) (s s' : Pass) → Inv t s → pass n s ≡ done s' → Passes t n s s') where
    pass_all-Completes :
        (ns : List ℕ) (s : Pass)
        → Inv t s
        → ((m : ℕ) (r : Pass) → In m ns → Keeps t s r → Completes (pass m r))
        → Completes (pass_all pass ns s)
    unfolding pass_all
    pass_all-Completes [] s i e = (s, refl)
    pass_all-Completes (n ∷ ns) s i e =
        bind-Completes (pass n s) (pass_all pass ns) (e n s (inl refl) (Keeps-refl t s i)) (λ r q.
          let first = ih n s r i q in
          pass_all-Completes ns r first.keeps.inv
            (λ m u x k. e m u (inr x) (Keeps-trans t s r u first.keeps k)))

    run_callback-Completes :
        (n : ℕ) (s : Pass)
        → Inv t s
        → s.passed n ≡ false
        → ((c : ℕ) → In c (t.children n) → s.passed c ≡ true)
        → s.calls n ≡ 0
        → (t.has_callback n ≡ true
            → (m : ℕ) (r : Pass) → In m (t.requests n (enter n s).trace)
            → Keeps t (enter n s) r
            → Completes (pass m r))
        → Completes (run_callback t pass n s)
    unfolding run_callback callback
    run_callback-Completes n s i p all z e = elim (Bool-cases (t.has_callback n)) [
      | inr b ↦ rw b (s, refl)
      | inl b ↦
          let start = enter-Inv t pass ih n s i b p z all in
          let c : ltb 1 (s.calls n + 1) ≡ false = ground (arith, z) in
          rw (b, c)
            (bind-Completes (pass_all pass (t.requests n (enter n s).trace) (enter n s))
              (λ x. done (leave n x))
              (pass_all-Completes (t.requests n (enter n s).trace) (enter n s) start (e b))
              (λ x q. (leave n x, refl)))
    ]

  -- The callback of a node does not run when the pass comes to it.
  resting :
      (n : ℕ) (s : Pass)
      → AllAbove n s
      → (r : Pass) → ((m : ℕ) → r.calls m ≡ s.calls m)
      → r.calls n ≡ 0
  unfolding AllAbove
  resting n s a r same = elim (Bool-cases (r.calls n == 0)) [
    | inl y ↦ (==_iff (r.calls n) 0).0 y
    | inr o ↦ let c : 0 < r.calls n = ground arith in absurd (omega (arith, a n (rw (same n) at c)))
  ]

  running :
      (n : ℕ) (s : Pass)
      → AllAbove n s
      → (r : Pass) → ((m : ℕ) → r.calls m ≡ s.calls m)
      → (m : ℕ) → order m < order n
      → (d : ℕ) → 0 < (enter n r).calls d
      → order m < order d
  unfolding AllAbove enter
  running n s a r same m l d c = elim (Bool-cases (d == n)) [
    | inl y ↦ rw ((==_iff d n).0 y) l
    | inr o ↦ let c' : 0 < r.calls d = rw o at c in omega (arith, l, a d (rw (same d) at c'))
  ]

  visit-Completes :
      (fuel n : ℕ) (s : Pass)
      → Inv t s
      → AllAbove n s
      → order n < fuel
      → Completes (node_build t fuel n s)
  unfolding node_build run_callback callback AllAbove
  visit-Completes zero n s i a f = absurd (omega arith)
  visit-Completes (suc fuel) n s i a f = elim (Bool-cases (s.passed n)) [
    | inl p ↦ rw p (s, refl)
    | inr p ↦
        let ih = visit-Passes t order tree fuel in
        let pass = node_build t fuel in
        rw p (
          bind-Completes (pass_all pass (t.children n) s)
            (λ x. run_callback t pass n x >>= λ y. done (mark n y))
            (pass_all-Completes pass ih (t.children n) s i (λ m r x k.
              let l = tree.falls n m x in
              visit-Completes fuel m r k.inv
                (λ d c. omega (arith, l, a d (rw (sym (k.calls_same d)) c))) (omega (arith, f, l))))
            (λ r q.
              let (k, all) = all-Keeps t pass ih (t.children n) s r i q in
              let pr =
                all_above t pass ih (t.children n) s r n i q
                  (λ m x. (Under-child t (here n) m x, rank_apart t order tree n n m (here n) x))
                  p in
              bind-Completes (run_callback t pass n r) (λ y. done (mark n y))
                (run_callback-Completes pass ih n r k.inv pr all (resting n s a r k.calls_same)
                  (λ b m u x k'.
                    let l = falls n m (enter n r).trace x in
                    visit-Completes fuel m u k'.inv
                      (λ d c. running n s a r k.calls_same m l d (rw (k'.calls_same d) at c))
                      (omega (arith, f, l))))
                (λ y e. (mark n y, refl))))
  ]

  -- Where the nodes below a node and those that its callback requests all come before it in some
  -- order, the pass completes, and has passed all nodes under the root and run the callback of each
  -- node passed exactly once.
  pub node_build-Completes :
      (root : ℕ)
      → (s : Pass) × (node_build t (suc (order root)) root fresh ≡ done s)
        × ((n : ℕ) → Under t root n → s.passed n ≡ true)
        × ((n : ℕ)
            → starts_count n s.trace
              ≡ (if s.passed n then (if t.has_callback n then 1 else 0) else 0))
  unfolding AllAbove
  node_build-Completes root =
      let (s, q) =
        visit-Completes (suc (order root)) root fresh (fresh-Inv t)
          (λ d c. absurd (omega (arith, c))) (omega arith) in
      let (all, once, sorted, resting_all, stack) =
        node_build_once t order (suc (order root)) root s tree q in
      (s, q, all, once)
