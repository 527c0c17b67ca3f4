-- ===== src/Build/Setup/Sets.antt =====
-- script.c: what a part of node_setup does to the flags, the callbacks and the contexts.
use autark.Prelude.{
  ℕ, ◌+◌, ◌≡◌, refl, sym, ap, ◌∙◌, inl, inr, true, false, arith, drop, ◌==◌, if◌then◌else◌, ==_iff,
  Bool-cases,
}
use autark.Build.{Tree, Pass, Outcome, done, mark}
use autark.Build.Invariant.{In, starts_count}
use autark.Build.Setup.{push_context, pop_context}
use autark.Build.Setup.Flags.{put_grows, passed_apart, apart_passed}

module _ (t : Tree) where
  -- A node without the flag has not been set up.
  unfoldable pub Untouched : Pass → Type 0
  Untouched s = (k : ℕ) → s.passed k ≡ false → starts_count k s.trace ≡ 0

  -- From s to s' the nodes that get the flag are set up once, and the others are left alone.
  pub record Sets (s s' : Pass) : Type 0 where
    pub grows : (k : ℕ) → s.passed k ≡ true → s'.passed k ≡ true
    pub old : (k : ℕ) → s.passed k ≡ true → starts_count k s'.trace ≡ starts_count k s.trace
    pub new :
        (k : ℕ)
        → s.passed k ≡ false
        → s'.passed k ≡ true
        → starts_count k s'.trace ≡ (if t.has_callback k then 1 else 0)
    pub closed :
        (k c : ℕ)
        → s.passed k ≡ false
        → s'.passed k ≡ true
        → In c (t.children k)
        → s'.passed c ≡ true
    pub untouched : Untouched s'
    pub stack : s'.context ≡ s.context
    pub counters : s'.calls ≡ s.calls

  pub Sets-refl : (s : Pass) → Untouched s → Sets s s
  Sets-refl s u = record {
    grows = λ k p. p;
    old = λ k p. refl;
    new = λ k p q. absurd (cc (p, q));
    closed = λ k c p q. absurd (cc (p, q));
    untouched = u;
    stack = refl;
    counters = refl;
  }

  pub Sets-trans : (s r u : Pass) → Sets s r → Sets r u → Sets s u
  Sets-trans s r u a b = record {
    grows = λ k p. b.grows k (a.grows k p);
    old = λ k p. b.old k (a.grows k p) ∙ a.old k p;
    new = λ k p q. elim (Bool-cases (r.passed k)) [
      | inl y ↦ b.old k y ∙ a.new k p y
      | inr o ↦ b.new k o q
    ];
    closed = λ k c p q x. elim (Bool-cases (r.passed k)) [
      | inl y ↦ b.grows c (a.closed k c p y x)
      | inr o ↦ b.closed k c o q x
    ];
    untouched = b.untouched;
    stack = b.stack ∙ a.stack;
    counters = b.counters ∙ a.counters;
  }

  -- What a call of node_setup does: it ends, with the flag of the node set.
  unfoldable pub Reaches : ℕ → Pass → Outcome → Type 0
  Reaches n s o = (s' : Pass) × (o ≡ done s') × Sets s s' × (s'.passed n ≡ true)

  -- From s to s' node n, which has the flag, is set up d times.
  pub record SetsBut (n d : ℕ) (s s' : Pass) : Type 0 where
    pub grows : (k : ℕ) → s.passed k ≡ true → s'.passed k ≡ true
    pub old :
        (k : ℕ)
        → k == n ≡ false
        → s.passed k ≡ true
        → starts_count k s'.trace ≡ starts_count k s.trace
    pub own : starts_count n s'.trace ≡ starts_count n s.trace + d
    pub new :
        (k : ℕ)
        → s.passed k ≡ false
        → s'.passed k ≡ true
        → starts_count k s'.trace ≡ (if t.has_callback k then 1 else 0)
    pub closed :
        (k c : ℕ)
        → s.passed k ≡ false
        → s'.passed k ≡ true
        → In c (t.children k)
        → s'.passed c ≡ true
    pub untouched : Untouched s'
    pub stack : s'.context ≡ s.context
    pub counters : s'.calls ≡ s.calls

  pub Sets-but : (n : ℕ) (s s' : Pass) → s.passed n ≡ true → Sets s s' → SetsBut n 0 s s'
  Sets-but n s s' p a = record {
    grows = a.grows;
    old = λ k o q. a.old k q;
    own = omega (arith, a.old n p);
    new = a.new;
    closed = a.closed;
    untouched = a.untouched;
    stack = a.stack;
    counters = a.counters;
  }

  pub SetsBut-trans :
      (n d e : ℕ) (s r u : Pass)
      → s.passed n ≡ true
      → SetsBut n d s r
      → SetsBut n e r u
      → SetsBut n (d + e) s u
  SetsBut-trans n d e s r u p a b = record {
    grows = λ k q. b.grows k (a.grows k q);
    old = λ k o q. b.old k o (a.grows k q) ∙ a.old k o q;
    own = omega (arith, a.own, b.own);
    new = λ k q q'. elim (Bool-cases (r.passed k)) [
      | inl y ↦ let o : k == n ≡ false = passed_apart s n k p q in b.old k o y ∙ a.new k q y
      | inr o ↦ b.new k o q'
    ];
    closed = λ k c q q' x. elim (Bool-cases (r.passed k)) [
      | inl y ↦ b.grows c (a.closed k c q y x)
      | inr o ↦ b.closed k c o q' x
    ];
    untouched = b.untouched;
    stack = b.stack ∙ a.stack;
    counters = b.counters ∙ a.counters;
  }

  pub in_context :
      (n d : ℕ) (s s' : Pass) → SetsBut n d (push_context n s) s' → SetsBut n d s (pop_context s')
  unfolding Untouched
  in_context n d s s' a = record {
    grows = a.grows;
    old = a.old;
    own = a.own;
    new = a.new;
    closed = a.closed;
    untouched = a.untouched;
    stack = ap (drop 1) a.stack;
    counters = a.counters;
  }

  -- The flag of n, and what its body does.
  pub marked-Sets :
      (n : ℕ) (s s' : Pass)
      → Untouched s
      → s.passed n ≡ false
      → SetsBut n (if t.has_callback n then 1 else 0) (mark n s) s'
      → ((c : ℕ) → In c (t.children n) → s'.passed c ≡ true)
      → Sets s s'
  unfolding mark Untouched
  marked-Sets n s s' u p a below_set = record {
    grows = λ k q. a.grows k (put_grows s.passed n k q);
    old = λ k q. a.old k (apart_passed s n k p q) (put_grows s.passed n k q);
    new = λ k q q'. elim (Bool-cases (k == n)) [
      | inl y ↦ let e = (==_iff k n).0 y in rw e (omega (arith, a.own, u n p))
      | inr o ↦ a.new k (rw o q) q'
    ];
    closed = λ k c q q' x. elim (Bool-cases (k == n)) [
      | inl y ↦ below_set c (rw (sym ((==_iff k n).0 y)) x)
      | inr o ↦ a.closed k c (rw o q) q' x
    ];
    untouched = a.untouched;
    stack = a.stack;
    counters = a.counters;
  }
