-- ===== src/Map/Refine/Reserve.antt =====
-- map.c: _map_resize keeps what a map holds, and _map_reserve_entry makes room for an entry.
use mathlib.Core.Option
use autark.Prelude.{
  ℕ, suc, ◌+◌, ◌-◌, ◌*◌, ◌/◌, ◌≤◌, ◌<◌, ◌≡◌, refl, sym, ap, ◌∙◌, inl, inr, true, false, Option,
  none, some, arith, Bytes, leb, ◌==◌, leb→le, ==_iff, Bool-cases, eq_self,
}
use autark.Map.Table.{Map, max_capacity, map_max_load}
use autark.Map.{map_resize, map_reserve_entry, is_capacity, adopt_table}
use autark.Map.Cycle.{pow_two, ones, ones_lem, pow_two_mono, pow_two_masked}
use autark.Map.Count.{busy_count}
use autark.Map.Resize.{resized}
use autark.Map.Refine.{Holds, pow_two_six}

pow_two_thirty : pow_two 30 ≡ max_capacity
unfolding pow_two
pow_two_thirty = refl

pub pow_two_step : (k : ℕ) → pow_two (suc k) ≡ pow_two k * 2
unfolding pow_two
pow_two_step k = omega arith

-- A new number of slots that passes the assertions.
is_capacity_lem :
    (k old : ℕ) → 6 ≤ k → k ≤ 30 → pow_two k == old ≡ false → is_capacity (pow_two k) old ≡ true
unfolding is_capacity
is_capacity_lem k old l h n =
    let o : pow_two k - 1 ≡ ones k = omega (arith, ones_lem k) in
    let a : leb 64 (pow_two k) ≡ true = ground (arith, pow_two_mono 6 k l, pow_two_six) in
    let b : leb (pow_two k) max_capacity ≡ true =
      ground (arith, pow_two_mono k 30 h, pow_two_thirty) in
    rw (o, pow_two_masked k (omega arith), n, a, b) refl

module _ {ℓ} {V : Type ℓ} where
  -- The table of a map is replaced by one of 2 ^ k slots with the same entries.
  pub map_resize-Holds :
      (hm : Map V) (f : Bytes → Option (Option V)) (h : Holds hm f) (k : ℕ)
      → 6 ≤ k
      → k ≤ 30
      → pow_two k == hm.capacity ≡ false
      → hm.count ≤ pow_two k - pow_two k / 4
      → (r : Map V) × (map_resize hm (pow_two k) ≡ some r)
        × Holds r f
        × (r.capacity ≡ pow_two k)
        × (r.count ≡ hm.count)
        × (r.freed ≡ hm.freed)
  unfolding map_resize adopt_table Option.bind
  map_resize-Holds hm f h k l u n load =
      let fits : k ≤ 31 = omega arith in
      let spare : busy_count hm.entries (pow_two h.bits) < pow_two k =
        omega (arith, h.counted, load, pow_two_mono 6 k l, pow_two_six) in
      let (new, q, g) = resized k fits hm.entries h.bits h.table spare in
      (
        record hm { entries = new; capacity = pow_two k; capacity_mask = pow_two k - 1 },
        rw (is_capacity_lem k hm.capacity l u n, h.size, q, h.counted, eq_self hm.count) refl,
        record {
          bits = k;
          low = l;
          high = u;
          size = refl;
          masked = omega (arith, ones_lem k);
          table = g.table';
          counted = g.filled' ∙ h.counted;
          load = load;
          shows = λ i v.
              let (i', w, s) = g.from i v in
              ap (λ x. f x.key) (sym s) ∙ h.shows i' w ∙ ap (λ x. some x.val) s;
          has = λ key v e.
              let (i, w, s) = h.has key v e in
              let (i', w', s') = g.into i w in (i', w', ap (λ x. x.key) s' ∙ s);
        },
        refl,
        refl,
        refl,
      )

  -- Without room in the largest table the program ends.
  pub map_reserve_entry_full :
      (hm : Map V)
      → hm.capacity ≡ max_capacity
      → map_max_load max_capacity < hm.count + 1
      → map_reserve_entry hm ≡ none
  unfolding map_reserve_entry map_max_load
  map_reserve_entry_full hm q l = rw q (ground arith)

  pub map_reserve_entry-Holds :
      (hm : Map V) (f : Bytes → Option (Option V)) (h : Holds hm f)
      → hm.count + 1 ≤ map_max_load max_capacity
      → (r : Map V) × (map_reserve_entry hm ≡ some r)
        × Holds r f
        × (r.count + 1 ≤ map_max_load r.capacity)
        × (r.count ≡ hm.count)
        × (r.freed ≡ hm.freed)
  unfolding map_reserve_entry map_max_load
  map_reserve_entry-Holds hm f h l =
      elim (Bool-cases (leb (hm.count + 1) (hm.capacity - hm.capacity / 4))) [
        | inl y ↦ (hm, rw y refl, h, leb→le _ _ y, refl, refl)
        | inr n ↦ elim (Bool-cases (h.bits == 30)) [
          | inl y ↦
              let full : hm.capacity ≡ max_capacity =
                h.size ∙ ap pow_two ((==_iff h.bits 30).0 y) ∙ pow_two_thirty in
              absurd (ground (arith, full))
          | inr o ↦
              let up : suc h.bits ≤ 30 = ground (arith, h.high) in
              let step = pow_two_step h.bits in
              let double : hm.capacity * 2 ≡ pow_two (suc h.bits) = omega (arith, step, h.size) in
              let large = pow_two_mono 6 h.bits h.low in
              let below : leb max_capacity hm.capacity ≡ false =
                ground (arith, h.size, step, pow_two_mono (suc h.bits) 30 up, pow_two_thirty) in
              let apart : pow_two (suc h.bits) == hm.capacity ≡ false =
                ground (arith, h.size, step, large, pow_two_six) in
              let (r, q, g, c, count, freed) =
                map_resize-Holds hm f h (suc h.bits) (omega (arith, h.low)) up apart
                  (omega (arith, step, h.load)) in
              (
                r,
                rw (n, below, double) q,
                g,
                omega (arith, c, count, step, h.load, large, pow_two_six),
                count,
                freed,
              )
        ]
      ]

  pub full_capacity :
      (hm : Map V) (f : Bytes → Option (Option V))
      → Holds hm f
      → map_max_load max_capacity ≤ hm.count
      → hm.capacity ≡ max_capacity
  unfolding map_max_load
  full_capacity hm f h l = elim (Bool-cases (h.bits == 30)) [
    | inl y ↦ h.size ∙ ap pow_two ((==_iff h.bits 30).0 y) ∙ pow_two_thirty
    | inr o ↦
        let up : suc h.bits ≤ 30 = ground (arith, h.high) in
        absurd (
          omega (
            arith,
            l,
            h.load,
            pow_two_step h.bits,
            pow_two_mono (suc h.bits) 30 up,
            pow_two_thirty,
          ))
  ]
