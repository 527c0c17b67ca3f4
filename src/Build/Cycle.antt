-- ===== src/Build/Cycle.antt =====
-- script.c: the cycles that node_build reports.
use autark.Prelude.{
  ℕ, zero, suc, ◌+◌, ◌<◌, ◌≡◌, refl, sym, inl, inr, true, false, List, [], ◌∷◌, arith, ltb, ◌==◌,
  ==_iff, Bool-cases,
}
use autark.Build.{
  Event, Tree, Pass, Outcome, done, cyclic, endless, ◌>>=◌, pass_all, enter, leave, mark, callback,
  run_callback, node_build, fresh,
}
use autark.Build.Invariant.{
  In, here, IsTree, Inv, Keeps, Passes, Under-child, Keeps-refl, Keeps-trans,
}
use autark.Build.Once.{all-Keeps, all_above, enter-Inv}
use autark.Build.Visit.{visit-Passes, fresh-Inv, rank_apart}

module _ (t : Tree) where
  -- The second node is passed on the way through the first: it is below it, or requested by its
  -- callback, or passed on the way through such a node.
  pub data Needs : ℕ → ℕ → Type 0 where
    child : (n m : ℕ) → In m (t.children n) → Needs n m
    request : (n m : ℕ) (tr : List Event) → In m (t.requests n tr) → Needs n m
    through : (n m k : ℕ) → Needs n m → Needs m k → Needs n k

  -- A cycle that is reported is one.
  Reports : Outcome → Type 0
  Reports o = (k : ℕ) → o ≡ cyclic k → Needs k k

  bind-Reports :
      (m : Outcome) (f : Pass → Outcome)
      → Reports m
      → ((s : Pass) → m ≡ done s → Reports (f s))
      → Reports (m >>= f)
  unfolding Reports
  bind-Reports (done s) f e g = g s refl
  bind-Reports (cyclic n) f e g = e
  bind-Reports endless f e g = λ k h. absurd (cc h)

  done-Reports : (s : Pass) → Reports (done s)
  unfolding Reports
  done-Reports s k h = absurd (cc h)

  endless-Reports : Reports endless
  unfolding Reports
  endless-Reports k h = absurd (cc h)

  -- The pass came to n through the nodes whose callbacks run.
  CameThrough : ℕ → Pass → Type 0
  CameThrough n s = (d : ℕ) → 0 < s.calls d → Needs d n

  module _ (pass : ℕ → Pass → Outcome)
      (ih : (n : ℕ) (s s' : Pass) → Inv t s → pass n s ≡ done s' → Passes t n s s') where
    pass_all-Reports :
        (ns : List ℕ) (s : Pass)
        → Inv t s
        → ((m : ℕ) (r : Pass) → In m ns → Keeps t s r → Reports (pass m r))
        → Reports (pass_all pass ns s)
    unfolding pass_all
    pass_all-Reports [] s i e = done-Reports s
    pass_all-Reports (n ∷ ns) s i e =
        bind-Reports (pass n s) (pass_all pass ns) (e n s (inl refl) (Keeps-refl t s i)) (λ r q.
          let first = ih n s r i q in
          pass_all-Reports ns r first.keeps.inv
            (λ m u x k. e m u (inr x) (Keeps-trans t s r u first.keeps k)))

    run_callback-Reports :
        (n : ℕ) (s : Pass)
        → Inv t s
        → s.passed n ≡ false
        → ((c : ℕ) → In c (t.children n) → s.passed c ≡ true)
        → CameThrough n s
        → ((m : ℕ) (r : Pass)
            → In m (t.requests n (enter n s).trace)
            → Keeps t (enter n s) r
            → Reports (pass m r))
        → Reports (run_callback t pass n s)
    unfolding run_callback callback Reports CameThrough
    run_callback-Reports n s i p all a e = elim (Bool-cases (t.has_callback n)) [
      | inr b ↦ rw b (done-Reports s)
      | inl b ↦ elim (Bool-cases (ltb 1 (s.calls n + 1))) [
        | inl c ↦ rw (b, c) (λ k h. let same : n ≡ k = cc h in rw (sym same) (a n (ground arith)))
        | inr c ↦
            let z : s.calls n ≡ 0 = ground arith in
            let start = enter-Inv t pass ih n s i b p z all in
            rw (b, c)
              (bind-Reports (pass_all pass (t.requests n (enter n s).trace) (enter n s))
                (λ x. done (leave n x))
                (pass_all-Reports (t.requests n (enter n s).trace) (enter n s) start e)
                (λ x q. done-Reports (leave n x)))
      ]
    ]

  came_further :
      (n : ℕ) (s : Pass)
      → CameThrough n s
      → (r : Pass) → ((m : ℕ) → r.calls m ≡ s.calls m)
      → (m : ℕ) → Needs n m
      → CameThrough m r
  unfolding CameThrough
  came_further n s a r same m l d c = through d n m (a d (rw (same d) at c)) l

  came_same :
      (n : ℕ) (s : Pass)
      → CameThrough n s
      → (r : Pass) → ((m : ℕ) → r.calls m ≡ s.calls m)
      → CameThrough n r
  unfolding CameThrough
  came_same n s a r same d c = a d (rw (same d) at c)

  came_requested :
      (n : ℕ) (s : Pass) → CameThrough n s → (m : ℕ) → Needs n m → CameThrough m (enter n s)
  unfolding CameThrough enter
  came_requested n s a m l d c = elim (Bool-cases (d == n)) [
    | inl y ↦ rw ((==_iff d n).0 y) l
    | inr o ↦ (let c' : 0 < s.calls d = rw o at c in through d n m (a d c') l)
  ]

  module _ (rank : ℕ → ℕ) (tree : IsTree t rank) where
    visit-Reports :
        (fuel n : ℕ) (s : Pass) → Inv t s → CameThrough n s → Reports (node_build t fuel n s)
    unfolding node_build
    visit-Reports zero n s i a = endless-Reports
    visit-Reports (suc fuel) n s i a = elim (Bool-cases (s.passed n)) [
      | inl p ↦ rw p (done-Reports s)
      | inr p ↦
          let ih = visit-Passes t rank tree fuel in
          let pass = node_build t fuel in
          rw p (
            bind-Reports (pass_all pass (t.children n) s)
              (λ x. run_callback t pass n x >>= λ y. done (mark n y))
              (pass_all-Reports pass ih (t.children n) s i (λ m r x k.
                visit-Reports fuel m r k.inv (came_further n s a r k.calls_same m (child n m x))))
              (λ r q.
                let (k, all) = all-Keeps t pass ih (t.children n) s r i q in
                let pr =
                  all_above t pass ih (t.children n) s r n i q
                    (λ m x. (Under-child t (here n) m x, rank_apart t rank tree n n m (here n) x))
                    p in
                let came = came_same n s a r k.calls_same in
                bind-Reports (run_callback t pass n r) (λ y. done (mark n y))
                  (run_callback-Reports pass ih n r k.inv pr all came (λ m u x k'.
                    visit-Reports fuel m u k'.inv (
                      came_same m (enter n r)
                        (came_requested n r came m (request n m (enter n r).trace x)) u
                        k'.calls_same)))
                  (λ y e. done-Reports (mark n y))))
    ]

    -- A node at which the pass over a tree ends the program for a cycle is passed on the way
    -- through itself, along links of the tree and requests of callbacks.
    pub node_build-cyclic : (fuel root k : ℕ) → node_build t fuel root fresh ≡ cyclic k → Needs k k
    unfolding Reports CameThrough
    node_build-cyclic fuel root k h =
        visit-Reports fuel root fresh (fresh-Inv t) (λ d c. absurd (omega (arith, c))) k h
