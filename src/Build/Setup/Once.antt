-- ===== src/Build/Setup/Once.antt =====
-- script.c: node_setup ends and sets up each node once, whatever the callbacks ask for.
use mathlib.Core.Path.{subst}
use autark.Prelude.{
  ℕ, zero, suc, ◌<◌, ◌≡◌, refl, inl, inr, Bool, true, false, ◌||◌, List, [], ◌∷◌, arith, ◌==◌,
  if◌then◌else◌, Bool-cases, eq_self,
}
use autark.Build.{Event, starts, returns, Tree, Pass, Outcome, done, pass_all, mark, fresh}
use autark.Build.Invariant.{In, starts_count, Under, here, below}
use autark.Build.Setup.{
  some_below, push_context, pop_context, log_event, setup_callback, setup_body, node_setup,
}
use autark.Build.Setup.Flags.{
  nothing_below, ne_flip, passed_apart, put_unset, unset, unset_falls, unset-put, unset_all,
}
use autark.Build.Setup.Sets.{
  Untouched, Sets, Reaches, Sets-refl, Sets-trans, SetsBut, Sets-but, SetsBut-trans, in_context,
  marked-Sets,
}

closed-Under :
    (t : Tree) (s : Pass)
    → ((k c : ℕ) → s.passed k ≡ true → In c (t.children k) → s.passed c ≡ true)
    → {n m : ℕ} → Under t n m
    → s.passed n ≡ true
    → s.passed m ≡ true
closed-Under t s h (here n) p = p
closed-Under t s h (below n c m x u) p = closed-Under t s h u (h n c p x)

module _ (t : Tree) (count : ℕ) where
  module _ (setup : ℕ → Pass → Outcome) (budget : ℕ)
      (ih : (n : ℕ) (s : Pass)
        → n < count
        → Untouched t s
        → unset s.passed count < budget
        → Reaches t n s (setup n s)) where
    all-Reaches :
        (ns : List ℕ) (s : Pass)
        → ((m : ℕ) → In m ns → m < count)
        → Untouched t s
        → unset s.passed count < budget
        → (s' : Pass) × (pass_all setup ns s ≡ done s')
          × Sets t s s'
          × ((m : ℕ) → In m ns → s'.passed m ≡ true)
    unfolding pass_all Reaches
    all-Reaches [] s b u l = (s, refl, Sets-refl t s u, λ m x. absurd x)
    all-Reaches (n ∷ ns) s b u l =
        let (r, q, g, p) = ih n s (b n (inl refl)) u l in
        let (v, q', g', all) =
          all-Reaches ns r (λ m x. b m (inr x)) g.untouched
            (omega (arith, l, unset_falls s.passed r.passed count g.grows)) in
        (
          v,
          rw q q',
          Sets-trans t s r v g g',
          λ m x. elim x [ inl e ↦ rw e (g'.grows n p) | inr y ↦ all m y ],
        )

    module _
        (requests_lt : (n m : ℕ)
          → n < count
          → (tr : List Event) → In m (t.requests n tr)
          → m < count)
        (n : ℕ) (n_lt : n < count) where
      callback-SetsBut :
          (s : Pass)
          → s.passed n ≡ true
          → Untouched t s
          → unset s.passed count < budget
          → (s' : Pass) × (setup_callback t setup n s ≡ done s')
            × SetsBut t n (if t.has_callback n then 1 else 0) s s'
      unfolding setup_callback Untouched starts_count
      callback-SetsBut s p u l = elim (Bool-cases (t.has_callback n)) [
        | inr o ↦ (s, rw o refl, rw o (Sets-but t n s s p (Sets-refl t s u)))
        | inl b ↦
            let (r, q, g, all) =
              all-Reaches (t.requests n (starts n ∷ s.trace)) (log_event (starts n) s)
                (λ m x. requests_lt n m n_lt (starts n ∷ s.trace) x)
                (λ k v.
                  let o : n == k ≡ false = ne_flip k n (passed_apart s n k p v) in
                  rw o (omega (arith, u k v)))
                l in
            (
              log_event (returns n) r,
              rw (b, q) refl,
              rw b (record {
                grows = g.grows;
                old = λ k o v.
                    let o' : n == k ≡ false = ne_flip k n o in
                    let same = g.old k v in
                    let zero_more : ◌≡◌ {A = ℕ} (if n == k then 1 else 0) 0 = rw o' refl in
                    omega (arith, same, zero_more);
                own =
                    let same = g.old n p in
                    let one_more : ◌≡◌ {A = ℕ} (if n == n then 1 else 0) 1 = rw (eq_self n) refl in
                    omega (arith, same, one_more);
                new = g.new;
                closed = g.closed;
                untouched = g.untouched;
                stack = g.stack;
                counters = g.counters;
              }),
            )
      ]

      -- The nodes below n, which has the flag.
      below-SetsBut :
          (s : Pass)
          → ((m : ℕ) → In m (t.children n) → m < count)
          → s.passed n ≡ true
          → Untouched t s
          → unset s.passed count < budget
          → (s' : Pass) × (pass_all setup (t.children n) s ≡ done s')
            × SetsBut t n 0 s s'
            × ((m : ℕ) → In m (t.children n) → s'.passed m ≡ true)
      below-SetsBut s b p u l =
          let (r, q, g, all) = all-Reaches (t.children n) s b u l in
          (r, q, Sets-but t n s r p g, all)

      -- What the body does, in the context of n.
      SetsUp : Bool → Pass → Type 0
      SetsUp kind s =
          (s' : Pass) × (setup_body t kind setup n s ≡ done s')
          × SetsBut t n (if t.has_callback n then 1 else 0) s s'
          × ((m : ℕ) → In m (t.children n) → s'.passed m ≡ true)

      foreach-SetsUp :
          (s : Pass)
          → ((m : ℕ) → In m (t.children n) → m < count)
          → s.passed n ≡ true
          → Untouched t s
          → unset s.passed count < budget
          → SetsUp true s
      unfolding setup_body SetsUp Untouched
      foreach-SetsUp s b p u l =
          let d : ℕ = if t.has_callback n then 1 else 0 in
          let (r, q, g) = callback-SetsBut (push_context n s) p u l in
          let (v, q', g', all) =
            below-SetsBut r b (g.grows n p) g.untouched
              (omega (arith, l, unset_falls s.passed r.passed count g.grows)) in
          let both = SetsBut-trans t n d 0 (push_context n s) r v p g g' in
          (
            pop_context v,
            rw (q, q') refl,
            in_context t n d s v
                (subst (λ e. SetsBut t n e (push_context n s) v) (omega arith) both),
            all,
          )

      plain-SetsUp :
          (s : Pass)
          → ((m : ℕ) → In m (t.children n) → m < count)
          → s.passed n ≡ true
          → Untouched t s
          → unset s.passed count < budget
          → (some_below (t.children n) || t.has_callback n) ≡ true
          → SetsUp false s
      unfolding setup_body SetsUp Untouched
      plain-SetsUp s b p u l busy =
          let d : ℕ = if t.has_callback n then 1 else 0 in
          let (r, q, g, all) = below-SetsBut (push_context n s) b p u l in
          let (v, q', g') =
            callback-SetsBut r (g.grows n p) g.untouched
              (omega (arith, l, unset_falls s.passed r.passed count g.grows)) in
          let both = SetsBut-trans t n 0 d (push_context n s) r v p g g' in
          (
            pop_context v,
            rw (busy, q, q') refl,
            in_context t n d s v
                (subst (λ e. SetsBut t n e (push_context n s) v) (omega arith) both),
            λ m x. g'.grows m (all m x),
          )

      none-SetsUp :
          (s : Pass)
          → s.passed n ≡ true
          → Untouched t s
          → (some_below (t.children n) || t.has_callback n) ≡ false
          → SetsUp false s
      unfolding setup_body SetsUp
      none-SetsUp s p u bare =
          let (nothing, no_callback) = nothing_below (t.children n) (t.has_callback n) bare in
          (
            s,
            rw bare refl,
            rw no_callback (Sets-but t n s s p (Sets-refl t s u)),
            λ m x. absurd (nothing m x),
          )

      setup_body-SetsUp :
          (kind : Bool) (s : Pass)
          → ((m : ℕ) → In m (t.children n) → m < count)
          → s.passed n ≡ true
          → Untouched t s
          → unset s.passed count < budget
          → SetsUp kind s
      setup_body-SetsUp true s b p u l = foreach-SetsUp s b p u l
      setup_body-SetsUp false s b p u l =
          elim (Bool-cases (some_below (t.children n) || t.has_callback n)) [
            | inl y ↦ plain-SetsUp s b p u l y
            | inr o ↦ none-SetsUp s p u o
          ]

  module _ (children_lt : (n m : ℕ) → n < count → In m (t.children n) → m < count)
      (requests_lt : (n m : ℕ) → n < count → (tr : List Event) → In m (t.requests n tr) → m < count)
      (is_foreach : ℕ → Bool) where
    node_setup-Reaches :
        (fuel n : ℕ) (s : Pass)
        → n < count
        → Untouched t s
        → unset s.passed count < fuel
        → Reaches t n s (node_setup t is_foreach fuel n s)
    unfolding node_setup Reaches SetsUp Untouched mark
    node_setup-Reaches zero n s b u l = absurd (omega arith)
    node_setup-Reaches (suc fuel) n s b u l = elim (Bool-cases (s.passed n)) [
      | inl p ↦ (s, rw p refl, Sets-refl t s u, p)
      | inr p ↦
          let (r, q, g, all) =
            setup_body-SetsUp (node_setup t is_foreach fuel) fuel (node_setup-Reaches fuel)
              requests_lt n b (is_foreach n) (mark n s) (λ m. children_lt n m b)
              (rw (eq_self n) refl) (λ k v. u k (put_unset s.passed n k v))
              (omega (arith, l, unset-put s.passed n count b p)) in
          (r, rw (p, q) refl, marked-Sets t n s r u p g all, g.grows n (rw (eq_self n) refl))
    ]

-- The set-up of a tree of nodes below `count` ends, with as much fuel as there are nodes and one
-- more, whatever its callbacks ask for and without an end of the program: all nodes under its root
-- are set up then, the callback of each node that was reached has run exactly once, that of no
-- other node has run, and the stack of contexts and the counters are as before.
pub node_setup_once :
    (t : Tree) (count root : ℕ) (is_foreach : ℕ → Bool)
    → ((n m : ℕ) → n < count → In m (t.children n) → m < count)
    → ((n m : ℕ) → n < count → (tr : List Event) → In m (t.requests n tr) → m < count)
    → root < count
    → (s : Pass) × (node_setup t is_foreach (suc count) root fresh ≡ done s)
      × ((n : ℕ) → Under t root n → s.passed n ≡ true)
      × ((n : ℕ)
          → starts_count n s.trace
            ≡ (if s.passed n then (if t.has_callback n then 1 else 0) else 0))
      × (s.context ≡ [])
      × (s.calls ≡ fresh.calls)
unfolding Reaches Untouched starts_count
node_setup_once t count root is_foreach children_lt requests_lt l =
    let (s, q, g, p) =
      node_setup-Reaches t count children_lt requests_lt is_foreach (suc count) root fresh l
        (λ k v. refl) (omega (arith, unset_all count)) in
    (
      s,
      q,
      λ n u. closed-Under t s (λ k c. g.closed k c refl) u p,
      λ n. elim (Bool-cases (s.passed n)) [
        | inl y ↦ rw y (g.new n refl y)
        | inr o ↦ rw o (g.untouched n o)
      ],
      g.stack,
      g.counters,
    )
