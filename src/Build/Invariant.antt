-- ===== src/Build/Invariant.antt =====
-- script.c: what node_build keeps: the flag goes up from the leaves, a counter stands at one while
-- a callback runs, and each callback has been started once.
use autark.Prelude.{
  ℕ, ◌+◌, ◌≤◌, ◌<◌, ◌≡◌, refl, ◌∙◌, ◌⊎◌, true, false, List, [], ◌∷◌, arith, ◌==◌, if◌then◌else◌,
}
use autark.Build.{Event, starts, returns, Tree, Pass}

abbrev pub In : ℕ → List ℕ → Type 0
In x [] = ⊥
In x (y ∷ ys) = (x ≡ y) ⊎ In x ys

unfoldable pub starts_count : ℕ → List Event → ℕ
starts_count n [] = 0
starts_count n (starts m ∷ tr) = (if m == n then 1 else 0) + starts_count n tr
starts_count n (returns m ∷ tr) = starts_count n tr

unfoldable pub returns_count : ℕ → List Event → ℕ
returns_count n [] = 0
returns_count n (starts m ∷ tr) = returns_count n tr
returns_count n (returns m ∷ tr) = (if m == n then 1 else 0) + returns_count n tr

module _ (t : Tree) where
  -- The nodes under a node, itself among them.
  pub data Under : ℕ → ℕ → Type 0 where
    here : (n : ℕ) → Under n n
    below : (n c m : ℕ) → In c (t.children n) → Under c m → Under n m

  -- The links between nodes make no circle.
  pub record IsTree (rank : ℕ → ℕ) : Type 0 where
    pub falls : (n c : ℕ) → In c (t.children n) → rank c < rank n

  -- A callback starts when those of the nodes below have returned.
  unfoldable pub IsOrdered : List Event → Type 0
  IsOrdered [] = Unit
  IsOrdered (starts n ∷ tr) =
      ((c : ℕ) → In c (t.children n) → t.has_callback c ≡ true → 0 < returns_count c tr)
      × IsOrdered tr
  IsOrdered (returns n ∷ tr) = IsOrdered tr

  pub record Inv (s : Pass) : Type 0 where
    pub closed : (n c : ℕ) → s.passed n ≡ true → In c (t.children n) → s.passed c ≡ true
    pub once :
        (n : ℕ)
        → starts_count n s.trace
          ≡ (if s.passed n then (if t.has_callback n then 1 else 0) else s.calls n)
    pub idle : (n : ℕ) → s.passed n ≡ true → s.calls n ≡ 0
    pub single : (n : ℕ) → s.calls n ≤ 1
    pub quiet : (n : ℕ) → t.has_callback n ≡ false → s.calls n ≡ 0
    pub returned :
        (n : ℕ) → s.passed n ≡ true → t.has_callback n ≡ true → 0 < returns_count n s.trace
    pub ordered : IsOrdered s.trace

  -- What happens from s to s'.
  pub record Keeps (s s' : Pass) : Type 0 where
    pub inv : Inv s'
    pub calls_same : (m : ℕ) → s'.calls m ≡ s.calls m
    pub context_same : s'.context ≡ s.context
    pub grows : (m : ℕ) → s.passed m ≡ true → s'.passed m ≡ true

  -- What the pass over node n does, which leaves the nodes above it.
  pub record Passes (n : ℕ) (s s' : Pass) : Type 0 where
    pub keeps : Keeps s s'
    pub reached : s'.passed n ≡ true
    pub above : (a : ℕ) → Under a n → a == n ≡ false → s.passed a ≡ false → s'.passed a ≡ false

  pub Keeps-refl : (s : Pass) → Inv s → Keeps s s
  Keeps-refl s i = record { inv = i; calls_same = λ m. refl; context_same = refl; grows = λ m p. p }

  pub Keeps-trans : (s r u : Pass) → Keeps s r → Keeps r u → Keeps s u
  Keeps-trans s r u a b = record {
    inv = b.inv;
    calls_same = λ m. b.calls_same m ∙ a.calls_same m;
    context_same = b.context_same ∙ a.context_same;
    grows = λ m p. b.grows m (a.grows m p);
  }

  -- The flag of a node goes with the flags of all nodes under it.
  pub closed-Under :
      (s : Pass) → Inv s → {n m : ℕ} → Under n m → s.passed n ≡ true → s.passed m ≡ true
  closed-Under s i (here n) p = p
  closed-Under s i (below n c m x u) p = closed-Under s i u (i.closed n c p x)

  pub Under-child : {a n : ℕ} → Under a n → (c : ℕ) → In c (t.children n) → Under a c
  Under-child (here n) c x = below n c c x (here c)
  Under-child (below a b n y u) c x = below a b c y (Under-child u c x)

  pub rank-Under : (rank : ℕ → ℕ) → IsTree rank → {a n : ℕ} → Under a n → rank n ≤ rank a
  rank-Under rank h (here n) = omega arith
  rank-Under rank h (below a b n y u) = omega (arith, h.falls a b y, rank-Under rank h u)
