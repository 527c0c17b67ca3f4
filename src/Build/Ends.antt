-- ===== src/Build/Ends.antt =====
-- script.c: node_build comes to an end: a cycle is met again in a callback that runs, and is
-- reported.
use autark.Prelude.{
  ℕ, zero, suc, ◌+◌, ◌*◌, ◌≤◌, ◌<◌, ◌≡◌, refl, sym, ap, ap₂, ◌∙◌, inl, inr, true, false, List, [],
  ◌∷◌, arith, ltb, ◌==◌, if◌then◌else◌, ==_iff, Bool-cases, suc-ne-zero,
}
use autark.Build.{
  Tree, Pass, Outcome, done, cyclic, endless, ◌>>=◌, put_calls, pass_all, enter, leave, mark,
  callback, run_callback, node_build, fresh,
}
use autark.Build.Invariant.{
  In, here, IsTree, Inv, Keeps, Passes, Under-child, Keeps-refl, Keeps-trans,
}
use autark.Build.Once.{all-Keeps, all_above, enter-Inv}
use autark.Build.Visit.{visit-Passes, fresh-Inv, rank_apart}

abbrev pub Ends : Outcome → Type 0
Ends o = o ≡ endless → ⊥

-- The nodes below n whose callback does not run.
idle_count : (ℕ → ℕ) → ℕ → ℕ
idle_count f zero = 0
idle_count f (suc n) = (if f n == 0 then 1 else 0) + idle_count f n

idle_count_same : (f g : ℕ → ℕ) (n : ℕ) → ((m : ℕ) → f m ≡ g m) → idle_count f n ≡ idle_count g n
unfolding idle_count
idle_count_same f g zero h = refl
idle_count_same f g (suc n) h =
    ap₂ (λ a b. (if a == 0 then 1 else 0) + b) (h n) (idle_count_same f g n h)

idle_count-put_out :
    (f : ℕ → ℕ) (n k m : ℕ) → m ≤ n → idle_count (put_calls f n k) m ≡ idle_count f m
unfolding idle_count
idle_count-put_out f n k zero h = refl
idle_count-put_out f n k (suc m) h =
    let o : m == n ≡ false = ground arith in
    rw o (ap (λ x. (if f m == 0 then 1 else 0) + x) (idle_count-put_out f n k m (omega arith)))

idle_count-put :
    (f : ℕ → ℕ) (n k m : ℕ)
    → n < m
    → f n ≡ 0
    → suc (idle_count (put_calls f n (suc k)) m) ≡ idle_count f m
unfolding idle_count
idle_count-put f n k zero h z = absurd (omega arith)
idle_count-put f n k (suc m) h z = elim (Bool-cases (m == n)) [
  | inl y ↦
      let q : m ≡ n = (==_iff m n).0 y in
      let zm : f m ≡ 0 = rw q z in
      rw (y, zm, suc-ne-zero k)
        (omega (
          arith,
          ap (idle_count (put_calls f n (suc k))) q,
          ap (idle_count f) q,
          idle_count-put_out f n (suc k) n (omega arith),
        ))
  | inr o ↦ rw o (omega (arith, idle_count-put f n k m (ground arith) z))
]

idle_count-le : (f : ℕ → ℕ) (n : ℕ) → idle_count f n ≤ n
unfolding idle_count
idle_count-le f zero = omega arith
idle_count-le f (suc n) = ground (arith, idle_count-le f n)

suc_times : (a b : ℕ) → suc a * b ≡ a * b + b
suc_times a b = grind arith

times_mono : (a b c : ℕ) → a ≤ b → a * c ≤ b * c
times_mono a b c l = grind arith

bind-Ends :
    (m : Outcome) (f : Pass → Outcome)
    → Ends m
    → ((s : Pass) → m ≡ done s → Ends (f s))
    → Ends (m >>= f)
bind-Ends (done s) f e g = g s refl
bind-Ends (cyclic n) f e g = λ h. cc h
bind-Ends endless f e g = λ h. e refl

module _ (t : Tree) (rank : ℕ → ℕ) (tree : IsTree t rank) (count top : ℕ)
    (children_lt : (n m : ℕ) → n < count → In m (t.children n) → m < count)
    (requests_lt : (n m : ℕ) → n < count → (tr : _) → In m (t.requests n tr) → m < count)
    (rank-le : (n : ℕ) → n < count → rank n ≤ top) where
  module _ (pass : ℕ → Pass → Outcome)
      (ih : (n : ℕ) (s s' : Pass) → Inv t s → pass n s ≡ done s' → Passes t n s s') where
    pass_all-Ends :
        (ns : List ℕ) (s : Pass)
        → Inv t s
        → ((m : ℕ) (r : Pass) → In m ns → Keeps t s r → Ends (pass m r))
        → Ends (pass_all pass ns s)
    unfolding pass_all
    pass_all-Ends [] s i e = λ h. cc h
    pass_all-Ends (n ∷ ns) s i e =
        bind-Ends (pass n s) (pass_all pass ns) (e n s (inl refl) (Keeps-refl t s i)) (λ r q.
          let first = ih n s r i q in
          pass_all-Ends ns r first.keeps.inv
            (λ m u x k. e m u (inr x) (Keeps-trans t s r u first.keeps k)))

    run_callback-Ends :
        (n : ℕ) (s : Pass)
        → Inv t s
        → s.passed n ≡ false
        → ((c : ℕ) → In c (t.children n) → s.passed c ≡ true)
        → (t.has_callback n ≡ true
            → s.calls n ≡ 0
            → (m : ℕ) (r : Pass) → In m (t.requests n (enter n s).trace)
            → Keeps t (enter n s) r
            → Ends (pass m r))
        → Ends (run_callback t pass n s)
    unfolding run_callback callback
    run_callback-Ends n s i p all e = elim (Bool-cases (t.has_callback n)) [
      | inr b ↦ rw b (λ h. cc h)
      | inl b ↦ elim (Bool-cases (ltb 1 (s.calls n + 1))) [
        | inl c ↦ rw (b, c) (λ h. cc h)
        | inr c ↦
            let z : s.calls n ≡ 0 = ground arith in
            let start = enter-Inv t pass ih n s i b p z all in
            rw (b, c)
              (bind-Ends (pass_all pass (t.requests n (enter n s).trace) (enter n s))
                (λ x. done (leave n x))
                (pass_all-Ends (t.requests n (enter n s).trace) (enter n s) start (e b z))
                (λ x q h. cc h))
      ]
    ]

  fuel_left :
      (a b x y fuel : ℕ) → suc a ≡ b → x ≤ top → b * suc top + y < suc fuel → a * suc top + x < fuel
  fuel_left a b x y fuel e l f =
      let q : b * suc top ≡ a * suc top + suc top = rw (sym e) (suc_times a (suc top)) in
      omega (arith, q, l, f)

  start_fuel : (a x : ℕ) → a ≤ count → x ≤ top → a * suc top + x < suc (count * suc top + top)
  start_fuel a x l m = omega (arith, times_mono a count (suc top) l, m)

  idle_falls :
      (n : ℕ) (s : Pass)
      → n < count
      → s.calls n ≡ 0
      → suc (idle_count (enter n s).calls count) ≡ idle_count s.calls count
  unfolding enter
  idle_falls n s l z =
      let one : s.calls n + 1 ≡ suc 0 = omega (arith, z) in
      rw one (idle_count-put s.calls n 0 count l z)

  -- Fuel for the chain of calls: each callback on it is of another node, and between two of them
  -- it goes down the tree.
  visit-Ends :
      (fuel n : ℕ) (s : Pass)
      → Inv t s
      → n < count
      → idle_count s.calls count * suc top + rank n < fuel
      → Ends (node_build t fuel n s)
  unfolding node_build
  visit-Ends zero n s i l f = absurd (omega arith)
  visit-Ends (suc fuel) n s i l f = elim (Bool-cases (s.passed n)) [
    | inl p ↦ rw p (λ h. cc h)
    | inr p ↦
        let ih = visit-Passes t rank tree fuel in
        let pass = node_build t fuel in
        rw p (
          bind-Ends (pass_all pass (t.children n) s)
            (λ x. run_callback t pass n x >>= λ y. done (mark n y))
            (pass_all-Ends pass ih (t.children n) s i (λ m r x k.
              let same = idle_count_same r.calls s.calls count k.calls_same in
              visit-Ends fuel m r k.inv (children_lt n m l x)
                (rw same (omega (arith, f, tree.falls n m x)))))
            (λ r q.
              let (k, all) = all-Keeps t pass ih (t.children n) s r i q in
              let pr =
                all_above t pass ih (t.children n) s r n i q
                  (λ m x. (Under-child t (here n) m x, rank_apart t rank tree n n m (here n) x))
                  p in
              bind-Ends (run_callback t pass n r) (λ y. done (mark n y))
                (run_callback-Ends pass ih n r k.inv pr all (λ b z m u x k'.
                  let same = idle_count_same r.calls s.calls count k.calls_same in
                  let same' = idle_count_same u.calls (enter n r).calls count k'.calls_same in
                  let m_lt = requests_lt n m l (enter n r).trace x in
                  let less = idle_falls n r l z in
                  visit-Ends fuel m u k'.inv m_lt (
                    rw same' (
                      fuel_left (idle_count (enter n r).calls count) (idle_count s.calls count)
                        (rank m) (rank n) fuel (less ∙ same) (rank-le m m_lt) f))))
                (λ y e h. cc h)))
  ]

  -- The pass over a tree of nodes below `count` and ranks up to `top` returns or reports a
  -- cycle with the fuel of this statement, whatever the callbacks request, each of which comes to
  -- an end itself.
  pub node_build-Ends :
      (root : ℕ) → root < count → Ends (node_build t (suc (count * suc top + top)) root fresh)
  node_build-Ends root l = visit-Ends (suc (count * suc top + top)) root fresh (fresh-Inv t) l (
      start_fuel (idle_count (λ n. 0) count) (rank root) (idle_count-le (λ n. 0) count)
        (rank-le root l))
