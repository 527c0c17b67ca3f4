-- ===== src/Build/Once.antt =====
-- script.c: node_build keeps its invariant, so that each callback runs once.
use autark.Prelude.{
  ℕ, ◌≡◌, refl, sym, ap, ◌∙◌, inl, inr, Bool, true, false, List, [], ◌∷◌, arith, ◌==◌, ==_iff,
  Bool-cases,
}
use autark.Build.{
  Tree, Pass, Outcome, done, cyclic, endless, ◌>>=◌, put_flag, pass_all, enter, leave, mark,
}
use autark.Build.Invariant.{
  In, starts_count, returns_count, Under, IsOrdered, Inv, Keeps, Passes, Keeps-refl, Keeps-trans,
}

pub >>=-done :
    (m : Outcome) (f : Pass → Outcome) (r : Pass)
    → (m >>= f) ≡ done r
    → (s : Pass) × (m ≡ done s) × (f s ≡ done r)
>>=-done (done s) f r h = (s, refl, h)
>>=-done (cyclic n) f r h = cc
>>=-done endless f r h = cc

pub done_inj : (s r : Pass) → done s ≡ done r → s ≡ r
done_inj s r h = cc

pub set_grows : (f : ℕ → Bool) (n m : ℕ) → f m ≡ true → put_flag f n m ≡ true
set_grows f n m p = elim (Bool-cases (m == n)) [ inl y ↦ rw y refl | inr o ↦ rw o p ]

module _ (t : Tree) where
  -- A node whose callback runs has no flag.
  pub unpassed : (n : ℕ) (s : Pass) → Inv t s → s.calls n ≡ 1 → s.passed n ≡ false
  unpassed n s i one = elim (Bool-cases (s.passed n)) [
    | inl y ↦ absurd (omega (arith, one, i.idle n y))
    | inr o ↦ o
  ]

  module _ (pass : ℕ → Pass → Outcome)
      (ih : (n : ℕ) (s s' : Pass) → Inv t s → pass n s ≡ done s' → Passes t n s s') where
    pub all-Keeps :
        (ns : List ℕ) (s s' : Pass)
        → Inv t s
        → pass_all pass ns s ≡ done s'
        → Keeps t s s' × ((m : ℕ) → In m ns → s'.passed m ≡ true)
    unfolding pass_all
    all-Keeps [] s s' i h = rw (sym (done_inj s s' h)) (Keeps-refl t s i, λ m x. absurd x)
    all-Keeps (n ∷ ns) s s' i h =
        let (r, p, q) = >>=-done (pass n s) (pass_all pass ns) s' h in
        let first = ih n s r i p in
        let (rest, reached) = all-Keeps ns r s' first.keeps.inv q in
        (
          Keeps-trans t s r s' first.keeps rest,
          λ m x. elim x [ inl e ↦ rw e (rest.grows n first.reached) | inr y ↦ reached m y ],
        )

    pub all_above :
        (ns : List ℕ) (s s' : Pass) (a : ℕ)
        → Inv t s
        → pass_all pass ns s ≡ done s'
        → ((m : ℕ) → In m ns → Under t a m × (a == m ≡ false))
        → s.passed a ≡ false
        → s'.passed a ≡ false
    unfolding pass_all
    all_above [] s s' a i h u p = rw (sym (done_inj s s' h)) p
    all_above (n ∷ ns) s s' a i h u p =
        let (r, q, h') = >>=-done (pass n s) (pass_all pass ns) s' h in
        let first = ih n s r i q in
        let (v, e) = u n (inl refl) in
        all_above ns r s' a first.keeps.inv h' (λ m x. u m (inr x)) (first.above a v e p)

    -- A node with no callback is marked.
    pub mark-Inv :
        (n : ℕ) (s : Pass)
        → Inv t s
        → t.has_callback n ≡ false
        → s.passed n ≡ false
        → ((c : ℕ) → In c (t.children n) → s.passed c ≡ true)
        → Inv t (mark n s)
    unfolding mark
    mark-Inv n s i bare p all = record {
      closed = λ m c q x. elim (Bool-cases (m == n)) [
        | inl y ↦ set_grows s.passed n c (all c (rw (sym ((==_iff m n).0 y)) x))
        | inr o ↦ set_grows s.passed n c (i.closed m c (rw o at q) x)
      ];
      once = λ m. elim (Bool-cases (m == n)) [
        | inl y ↦
            let q = (==_iff m n).0 y in
            let hm : t.has_callback m ≡ false = rw q bare in
            let pm : s.passed m ≡ false = rw q p in
            let e : starts_count m s.trace ≡ s.calls m = rw pm at (i.once m) in
            rw (y, hm) (e ∙ i.quiet m hm)
        | inr o ↦ rw o (i.once m)
      ];
      idle = λ m q. elim (Bool-cases (m == n)) [
        | inl y ↦ i.quiet m (rw ((==_iff m n).0 y) bare)
        | inr o ↦ i.idle m (rw o at q)
      ];
      single = i.single;
      quiet = i.quiet;
      returned = λ m q h. elim (Bool-cases (m == n)) [
        | inl y ↦ (let hm : t.has_callback m ≡ false = rw ((==_iff m n).0 y) bare in cc (hm, h))
        | inr o ↦ i.returned m (rw o at q) h
      ];
      ordered = i.ordered;
    }

    -- The start of a callback.
    pub enter-Inv :
        (n : ℕ) (s : Pass)
        → Inv t s
        → t.has_callback n ≡ true
        → s.passed n ≡ false
        → s.calls n ≡ 0
        → ((c : ℕ) → In c (t.children n) → s.passed c ≡ true)
        → Inv t (enter n s)
    unfolding enter starts_count returns_count IsOrdered
    enter-Inv n s i b p z all = record {
      closed = i.closed;
      once = λ m. elim (Bool-cases (m == n)) [
        | inl y ↦
            let q = (==_iff m n).0 y in
            let pm : s.passed m ≡ false = rw q p in
            let e : starts_count m s.trace ≡ s.calls m = rw pm at (i.once m) in
            let y' : n == m ≡ true = (==_iff n m).1 (sym q) in
            rw (y, y', pm) (omega (arith, e, ap s.calls q))
        | inr o ↦ let o' : n == m ≡ false = ground arith in rw (o, o') (omega (arith, i.once m))
      ];
      idle = λ m q. elim (Bool-cases (m == n)) [
        | inl y ↦ (let pm : s.passed m ≡ false = rw ((==_iff m n).0 y) p in cc (pm, q))
        | inr o ↦ rw o (i.idle m q)
      ];
      single = λ m. elim (Bool-cases (m == n)) [
        | inl y ↦ rw y (omega (arith, z))
        | inr o ↦ rw o (i.single m)
      ];
      quiet = λ m h. elim (Bool-cases (m == n)) [
        | inl y ↦ (let hm : t.has_callback m ≡ true = rw ((==_iff m n).0 y) b in cc (hm, h))
        | inr o ↦ rw o (i.quiet m h)
      ];
      returned = i.returned;
      ordered = (λ c x h. i.returned c (all c x) h, i.ordered);
    }

    -- The end of a callback, and the flag.
    pub leave-Inv :
        (n : ℕ) (s : Pass)
        → Inv t s
        → t.has_callback n ≡ true
        → s.calls n ≡ 1
        → ((c : ℕ) → In c (t.children n) → s.passed c ≡ true)
        → Inv t (mark n (leave n s))
    unfolding leave mark starts_count returns_count IsOrdered
    leave-Inv n s i b one all = record {
      closed = λ m c q x. elim (Bool-cases (m == n)) [
        | inl y ↦ set_grows s.passed n c (all c (rw (sym ((==_iff m n).0 y)) x))
        | inr o ↦ set_grows s.passed n c (i.closed m c (rw o at q) x)
      ];
      once = λ m. elim (Bool-cases (m == n)) [
        | inl y ↦
            let q = (==_iff m n).0 y in
            let hm : t.has_callback m ≡ true = rw q b in
            let cm : s.calls m ≡ 1 = rw q one in
            let pm = unpassed m s i cm in
            let e : starts_count m s.trace ≡ s.calls m = rw pm at (i.once m) in rw (y, hm) (e ∙ cm)
        | inr o ↦ rw o (i.once m)
      ];
      idle = λ m q. elim (Bool-cases (m == n)) [
        | inl y ↦ rw y (omega (arith, one))
        | inr o ↦ rw o (i.idle m (rw o at q))
      ];
      single = λ m. elim (Bool-cases (m == n)) [
        | inl y ↦ rw y (omega (arith, one))
        | inr o ↦ rw o (i.single m)
      ];
      quiet = λ m h. elim (Bool-cases (m == n)) [
        | inl y ↦ (let hm : t.has_callback m ≡ true = rw ((==_iff m n).0 y) b in cc (hm, h))
        | inr o ↦ rw o (i.quiet m h)
      ];
      returned = λ m q h. elim (Bool-cases (m == n)) [
        | inl y ↦
            let y' : n == m ≡ true = (==_iff n m).1 (sym ((==_iff m n).0 y)) in rw y' (omega arith)
        | inr o ↦
            let o' : n == m ≡ false = ground arith in
            rw o' (omega (arith, i.returned m (rw o at q) h))
      ];
      ordered = i.ordered;
    }
