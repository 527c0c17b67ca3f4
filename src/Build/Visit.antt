-- ===== src/Build/Visit.antt =====
-- script.c: one call of node_build.
use autark.Prelude.{
  ℕ, zero, suc, ◌+◌, ◌≡◌, refl, sym, ap, ◌∙◌, inl, inr, true, false, [], arith, drop, ltb, ◌==◌,
  if◌then◌else◌, ==_iff, Bool-cases, eq_self,
}
use autark.Build.{
  Tree, Pass, Outcome, done, cyclic, ◌>>=◌, pass_all, enter, leave, mark, callback, run_callback,
  node_build, fresh,
}
use autark.Build.Invariant.{
  In, starts_count, Under, here, IsTree, IsOrdered, Inv, Keeps, Passes, Keeps-refl, closed-Under,
  Under-child, rank-Under,
}
use autark.Build.Once.{
  >>=-done, done_inj, set_grows, unpassed, all-Keeps, all_above, mark-Inv, enter-Inv, leave-Inv,
}

module _ (t : Tree) where
  -- What the callback of a node does when the nodes below have been passed.
  record Runs (n : ℕ) (s s' : Pass) : Type 0 where
    inv : Inv t (mark n s')
    calls_same : (m : ℕ) → s'.calls m ≡ s.calls m
    context_same : s'.context ≡ s.context
    grows : (m : ℕ) → s.passed m ≡ true → s'.passed m ≡ true
    above : (a : ℕ) → Under t a n → a == n ≡ false → s.passed a ≡ false → s'.passed a ≡ false

  module _ (pass : ℕ → Pass → Outcome)
      (ih : (n : ℕ) (s s' : Pass) → Inv t s → pass n s ≡ done s' → Passes t n s s') (n : ℕ)
      (s : Pass) (i : Inv t s) (p : s.passed n ≡ false)
      (all : (c : ℕ) → In c (t.children n) → s.passed c ≡ true) where
    bare-Runs : t.has_callback n ≡ false → Runs n s s
    bare-Runs b = record {
      inv = mark-Inv t pass ih n s i b p all;
      calls_same = λ m. refl;
      context_same = refl;
      grows = λ m q. q;
      above = λ a u e q. q;
    }

    callback-Runs :
        (s' : Pass)
        → t.has_callback n ≡ true
        → s.calls n ≡ 0
        → callback t pass n s ≡ done s'
        → Runs n s s'
    unfolding callback
    callback-Runs s' b z h =
        let start = enter-Inv t pass ih n s i b p z all in
        let (r, q, e) =
          >>=-done (pass_all pass (t.requests n (enter n s).trace) (enter n s))
            (λ x. done (leave n x)) s' h in
        let (k, reached) =
          all-Keeps t pass ih (t.requests n (enter n s).trace) (enter n s) r start q in
        let one : r.calls n ≡ 1 = k.calls_same n ∙ (rw (eq_self n) (omega (arith, z))) in
        let left : leave n r ≡ s' = done_inj (leave n r) s' e in
        rw (sym left) (record {
          inv = leave-Inv t pass ih n r k.inv b one (λ c x. k.grows c (all c x));
          calls_same = λ m. elim (Bool-cases (m == n)) [
            | inl y ↦ rw (y, (==_iff m n).0 y) (omega (arith, one, z))
            | inr o ↦
                let same : (enter n s).calls m ≡ s.calls m = rw o refl in
                rw o (k.calls_same m ∙ same)
          ];
          context_same = ap (drop 1) k.context_same;
          grows = k.grows;
          above = λ a u e q. elim (Bool-cases (r.passed a)) [
            | inl y ↦
                let up : r.passed n ≡ true = closed-Under t r k.inv u y in
                absurd (cc (up, unpassed t n r k.inv one))
            | inr o ↦ o
          ];
        })

    run_callback-Runs : (s' : Pass) → run_callback t pass n s ≡ done s' → Runs n s s'
    unfolding run_callback
    run_callback-Runs s' h = elim (Bool-cases (t.has_callback n)) [
      | inl b ↦ elim (Bool-cases (ltb 1 (s.calls n + 1))) [
        | inl c ↦ (let h' : cyclic n ≡ done s' = rw (b, c) at h in cc h')
        | inr c ↦ callback-Runs s' b (ground arith) (rw (b, c) at h)
      ]
      | inr b ↦ let h' : done s ≡ done s' = rw b at h in rw (sym (done_inj s s' h')) (bare-Runs b)
    ]

  finish-Passes :
      (n : ℕ) (s r u : Pass)
      → Keeps t s r
      → Runs n r u
      → ((a : ℕ) → Under t a n → s.passed a ≡ false → r.passed a ≡ false)
      → Passes t n s (mark n u)
  unfolding mark
  finish-Passes n s r u k run up = record {
    keeps = record {
      inv = run.inv;
      calls_same = λ m. run.calls_same m ∙ k.calls_same m;
      context_same = run.context_same ∙ k.context_same;
      grows = λ m p. set_grows u.passed n m (run.grows m (k.grows m p));
    };
    reached = rw (eq_self n) refl;
    above = λ a v ne p. rw ne (run.above a v ne (up a v p));
  }

  module _ (rank : ℕ → ℕ) (tree : IsTree t rank) where
    pub rank_apart : (a n m : ℕ) → Under t a n → In m (t.children n) → a == m ≡ false
    rank_apart a n m u x = elim (Bool-cases (a == m)) [
      | inl y ↦
          let e : rank a ≡ rank m = ap rank ((==_iff a m).0 y) in
          absurd (omega (arith, e, rank-Under t rank tree u, tree.falls n m x))
      | inr o ↦ o
    ]

    pub visit-Passes :
        (fuel n : ℕ) (s s' : Pass) → Inv t s → node_build t fuel n s ≡ done s' → Passes t n s s'
    unfolding node_build
    visit-Passes zero n s s' i h = cc
    visit-Passes (suc fuel) n s s' i h = elim (Bool-cases (s.passed n)) [
      | inl p ↦
          let e : done s ≡ done s' = rw p at h in
          rw (sym (done_inj s s' e))
            (record { keeps = Keeps-refl t s i; reached = p; above = λ a u ne q. q })
      | inr p ↦
          let ih = visit-Passes fuel in
          let pass = node_build t fuel in
          let (r, q, h1) =
            >>=-done (pass_all pass (t.children n) s)
              (λ x. run_callback t pass n x >>= λ y. done (mark n y)) s' (rw p at h) in
          let (u, q', h2) = >>=-done (run_callback t pass n r) (λ y. done (mark n y)) s' h1 in
          let (k, all) = all-Keeps t pass ih (t.children n) s r i q in
          let up = λ (a : ℕ) (v : Under t a n).
            all_above t pass ih (t.children n) s r a i q
              (λ m x. (Under-child t v m x, rank_apart a n m v x)) in
          let run = run_callback-Runs pass ih n r k.inv (up n (here n) p) all u q' in
          rw (sym (done_inj (mark n u) s' h2)) (finish-Passes n s r u k run up)
    ]

  pub fresh-Inv : Inv t fresh
  unfolding starts_count IsOrdered
  fresh-Inv = record {
    closed = λ n c p. absurd (cc p);
    once = λ n. refl;
    idle = λ n p. refl;
    single = λ n. omega arith;
    quiet = λ n h. refl;
    returned = λ n p. absurd (cc p);
    ordered = tt;
  }

  -- A pass over a tree that ends has passed all nodes under its root and has run the callback of
  -- each node passed exactly once, behind those of the nodes below it; no callback of another node
  -- has run, and the counters and the stack of contexts are as before.
  pub node_build_once :
      (rank : ℕ → ℕ) (fuel root : ℕ) (s : Pass)
      → IsTree t rank
      → node_build t fuel root fresh ≡ done s
      → ((n : ℕ) → Under t root n → s.passed n ≡ true)
        × ((n : ℕ)
            → starts_count n s.trace
              ≡ (if s.passed n then (if t.has_callback n then 1 else 0) else 0))
        × IsOrdered t s.trace
        × ((n : ℕ) → s.calls n ≡ 0)
        × (s.context ≡ [])
  node_build_once rank fuel root s tree h =
      let v = visit-Passes rank tree fuel root fresh s fresh-Inv h in
      let k = v.keeps in
      let i = k.inv in
      (
        λ n u. closed-Under t s i u v.reached,
        λ n. (let c : s.calls n ≡ 0 = k.calls_same n in rw c at (i.once n)),
        i.ordered,
        k.calls_same,
        k.context_same,
      )
