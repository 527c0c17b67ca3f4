-- ===== src/Map/Find.antt =====
-- map.c: every probing loop stops where the probe does, and _map_entry_find finds exactly the
-- keys of the table.
use autark.Prelude.{
  ℕ, zero, suc, ◌+◌, ◌-◌, ◌≤◌, ◌<◌, ◌≡◌, sym, ap, ◌∙◌, ◌⊎◌, inl, inr, Bool, true, false, none, some,
  arith, Bytes, str_eq, str_eq_refl, str_eq_iff, ltb, ◌==◌, ltb→lt, ==_iff, Bool-cases, eq_self,
}
use autark.Map.Table.{Entry, bit_and, matches, next_slot, find_loop}
use autark.Map.Cycle.{pow_two, ones, at, dist, bit_and-lt, next_slot_lem}
use autark.Map.Arcs.{at-lt, at-dist, next-at, at_zero}
use autark.Map.Probe.{hash_of, IsBusy, IsLive, home, IsTable, Probe, probe}

-- A loop that goes on from taken slots that fail a test comes to the slot where the probe stops.
module _ {ℓ κ} {V : Type ℓ} {B : Type κ} (k : ℕ) (fits : k ≤ 31) (e : ℕ → Entry V)
    (p : Entry V → Bool) (loop : ℕ → ℕ → B)
    (step : (n i : ℕ)
      → IsBusy e i
      → p (e i) ≡ false
      → loop (suc n) i ≡ loop n (next_slot (ones k) i))
    (h : ℕ) (h_lt : h < pow_two k) where
  skip :
      (m d n w : ℕ)
      → w ≡ m + n
      → d + m < pow_two k
      → ((t : ℕ) → t < d + m → IsBusy e (at (pow_two k) h t) × (p (e (at (pow_two k) h t)) ≡ false))
      → loop w (at (pow_two k) h d) ≡ loop n (at (pow_two k) h (d + m))
  skip zero d n w q l all =
      let a : w ≡ n = omega arith in let b : d + 0 ≡ d = omega arith in rw (a, b)
  skip (suc m) d n zero q l all = absurd (omega arith)
  skip (suc m) d n (suc w) q l all =
      let (busy, fails) = all d (omega arith) in
      let on = step w (at (pow_two k) h d) busy fails in
      let there : next_slot (ones k) (at (pow_two k) h d) ≡ at (pow_two k) h (suc d) =
        next_slot_lem k fits (at (pow_two k) h d) (at-lt (pow_two k) h h_lt d (omega arith))
        ∙ next-at (pow_two k) h h_lt d (omega arith) in
      let shift : suc d + m ≡ d + suc m = omega arith in
      on
      ∙ ap (λ i. loop w i) there
      ∙ skip m (suc d) n w (omega arith) (omega arith) (λ t s. all t (omega arith))
      ∙ ap (λ t. loop n (at (pow_two k) h t)) shift

  pub loop-Probe :
      (r : Probe (pow_two k) e p h)
      → (n : ℕ) × (loop (pow_two k) h ≡ loop (suc n) (at (pow_two k) h r.away))
  loop-Probe r = (
    pow_two k - r.away - 1,
    ap (loop (pow_two k)) (sym (at_zero (pow_two k) h h_lt))
        ∙ skip r.away 0 (suc (pow_two k - r.away - 1)) (pow_two k) (let l = r.inside in omega arith)
            (let l = r.inside in omega arith) (λ t s. r.passed t (omega arith))
        ∙ ap (λ t. loop (suc (pow_two k - r.away - 1)) (at (pow_two k) h t)) (omega arith),
  )

module _ {ℓ} {V : Type ℓ} (k : ℕ) (fits : k ≤ 31) (e : ℕ → Entry V) (key : Bytes) where
  abbrev pub start : ℕ
  start = bit_and 32 (hash_of key) (ones k)

  abbrev pub wanted : Entry V → Bool
  wanted = matches key (hash_of key)

  -- No slot has the key.
  abbrev pub IsAbsent : Type 0
  IsAbsent = (i : ℕ) → IsLive (pow_two k) e (pow_two k) i → (e i).key ≡ key → ⊥

  pub wanted_key : (x : Entry V) → wanted x ≡ true → (x.hash ≡ hash_of key) × (x.key ≡ key)
  wanted_key x m = elim (Bool-cases (x.hash == hash_of key)) [
    | inl h ↦
        let q : str_eq key x.key ≡ true = ground arith in
        ((==_iff x.hash (hash_of key)).0 h, sym ((str_eq_iff key x.key).0 q))
    | inr h ↦ cc
  ]

  wanted_all : (x : Entry V) → x.hash ≡ hash_of key → x.key ≡ key → wanted x ≡ true
  wanted_all x h q = rw (h, q, eq_self (hash_of key), str_eq_refl key)

  pub probed-IsLive :
      (r : Probe (pow_two k) e wanted start)
      → IsBusy e (at (pow_two k) start r.away)
      → IsLive (pow_two k) e (pow_two k) (at (pow_two k) start r.away)
  probed-IsLive r b =
      let l = at-lt (pow_two k) start (bit_and-lt k fits (hash_of key)) r.away r.inside in
      record { within = l; busy = b; apart = ground arith }

  -- Where the probe for a key comes to an empty slot, the table does not have the key.
  pub probe-IsAbsent :
      (t : IsTable k e (pow_two k)) (r : Probe (pow_two k) e wanted start)
      → (e (at (pow_two k) start r.away)).hash == 0 ≡ true
      → IsAbsent
  probe-IsAbsent t r z i v q =
      let c = pow_two k in
      let hq : (e i).hash ≡ hash_of key = t.hashed i v ∙ ap hash_of q in
      let from : home k (e i) ≡ start = ap (λ x. bit_and 32 x (ones k)) hq in
      let l = bit_and-lt k fits (hash_of key) in
      let there : at c start (dist c start i) ≡ i = at-dist c start l i v.within in
      elim (Bool-cases (ltb (dist c start i) r.away)) [
        | inl near ↦
            let fails = (r.passed (dist c start i) (ltb→lt _ _ near)).1 in
            let fails_at : wanted (e i) ≡ false = rw there at fails in
            cc (fails_at, wanted_all (e i) hq q)
        | inr far ↦ elim (Bool-cases (ltb r.away (dist c start i))) [
          | inl behind ↦
              let b = t.reach i r.away v (rw from (ltb→lt _ _ behind)) in
              let b_at : IsBusy e (at c start r.away) = rw from at b in cc (b_at, z)
          | inr not_behind ↦
              let s : r.away ≡ dist c start i = ground arith in
              let z_at : (e i).hash == 0 ≡ true =
                ap (λ x. (e x).hash == 0) (sym (ap (at c start) s ∙ there)) ∙ z in
              cc (z_at, v.busy)
        ]
      ]

  -- What _map_entry_find answers: the slot that has the key, or that no slot has it.
  pub find_lem :
      (t : IsTable k e (pow_two k)) (f : ℕ)
      → f < pow_two k
      → (e f).hash == 0 ≡ true
      → ((i : ℕ) × IsLive (pow_two k) e (pow_two k) i
          × ((e i).key ≡ key)
          × (find_loop e (ones k) key (hash_of key) (pow_two k) start ≡ some (some i)))
        ⊎ (IsAbsent × (find_loop e (ones k) key (hash_of key) (pow_two k) start ≡ some none))
  unfolding find_loop
  find_lem t f l z =
      let r = probe (pow_two k) e wanted start f (bit_and-lt k fits (hash_of key)) l z in
      let (n, q) =
        loop-Probe k fits e wanted (find_loop e (ones k) key (hash_of key)) (λ n i b m. rw (b, m))
          start (bit_and-lt k fits (hash_of key)) r in
      elim r.stop [
        | inl empty ↦ inr (probe-IsAbsent t r empty, q ∙ rw empty)
        | inr (busy, m) ↦ inl (
          at (pow_two k) start r.away,
          probed-IsLive r busy,
          (wanted_key (e (at (pow_two k) start r.away)) m).1,
          q ∙ rw (busy, m),
        )
      ]
