-- ===== src/Map/Resize.antt =====
-- map.c: _map_resize puts the entries of the old table into the new one, each once.
use mathlib.Core.Option
use autark.Prelude.{
  ℕ, zero, suc, ◌+◌, ◌-◌, ◌≤◌, ◌<◌, ◌≡◌, refl, sym, ap, ◌∙◌, inl, inr, true, false, some, arith,
  ◌==◌, ==_iff, Bool-cases,
}
use autark.Map.Table.{Entry, set_slot, empty_slot}
use autark.Map.{free_slot, move_entry, move_entries}
use autark.Map.Cycle.{pow_two, ones, ones_lem, at, bit_and-lt}
use autark.Map.Arcs.{at-lt}
use autark.Map.Probe.{hash_of, IsBusy, IsLive, home, IsTable, probe}
use autark.Map.Find.{loop-Probe}
use autark.Map.Insert.{insert-IsTable, set_same, set_other}
use autark.Map.Close.{ne_of_lt, not_free, busy_ne_free}
use autark.Map.Count.{
  busy_count, busy_count-set, busy_count_step, busy_count_mono, busy_count-none, free_of_count,
  weight,
}

module _ {ℓ} {V : Type ℓ} (k : ℕ) (fits : k ≤ 31) where
  -- The slot that is found for an entry whose key is new to a table that is not full.
  pub free_slot_lem :
      (e : ℕ → Entry V) (x : Entry V)
      → IsTable k e (pow_two k)
      → busy_count e (pow_two k) < pow_two k
      → x.hash == 0 ≡ false
      → x.hash ≡ hash_of x.key
      → ((j : ℕ) → IsLive (pow_two k) e (pow_two k) j → (e j).key ≡ x.key → ⊥)
      → (i : ℕ) × (free_slot e (ones k) (pow_two k) (home k x) ≡ some i)
        × (i < pow_two k)
        × ((e i).hash == 0 ≡ true)
        × IsTable k (set_slot e i x) (pow_two k)
  unfolding free_slot
  free_slot_lem e x t room busy hx new =
      let (f, f_lt, z) = free_of_count e (pow_two k) room in
      let l = bit_and-lt k fits x.hash in
      let r = probe (pow_two k) e (λ y. false) (home k x) f l f_lt z in
      let (n, q) =
        loop-Probe k fits e (λ y. false) (free_slot e (ones k)) (λ n i b m. rw b) (home k x) l r in
      elim r.stop [
        | inl empty ↦ (
          at (pow_two k) (home k x) r.away,
          q ∙ rw empty,
          at-lt (pow_two k) (home k x) l r.away r.inside,
          empty,
          insert-IsTable k fits e x busy r.away r.inside (λ s m. (r.passed s m).0) hx new t,
        )
        | inr (b, m) ↦ absurd (cc m)
      ]

  IsLive-before :
      (e : ℕ → Entry V) (i : ℕ) (x : Entry V) (j : ℕ)
      → j == i ≡ false
      → IsLive (pow_two k) (set_slot e i x) (pow_two k) j
      → IsLive (pow_two k) e (pow_two k) j
  IsLive-before e i x j n v = record {
    within = v.within;
    busy = rw (set_other e i x j n) at v.busy;
    apart = v.apart;
  }

  IsLive-after :
      (e : ℕ → Entry V) (i : ℕ) (x : Entry V) (j : ℕ)
      → j == i ≡ false
      → IsLive (pow_two k) e (pow_two k) j
      → IsLive (pow_two k) (set_slot e i x) (pow_two k) j
  IsLive-after e i x j n v = record {
    within = v.within;
    busy = rw (set_other e i x j n) v.busy;
    apart = v.apart;
  }

  module _ (old : ℕ → Entry V) (m : ℕ) (table : IsTable m old (pow_two m)) where
    -- The entries in the first j slots of the old table are those of the new one.
    record Moved (j : ℕ) (new : ℕ → Entry V) (count : ℕ) : Type ℓ where
      sound : IsTable k new (pow_two k)
      filled : busy_count new (pow_two k) ≡ count
      counted : count ≡ busy_count old j
      from_old :
          (i : ℕ)
          → IsLive (pow_two k) new (pow_two k) i
          → (i' : ℕ) × (i' < j) × IsLive (pow_two m) old (pow_two m) i' × (old i' ≡ new i)
      to_new :
          (i : ℕ)
          → i < j
          → IsLive (pow_two m) old (pow_two m) i
          → (i' : ℕ) × IsLive (pow_two k) new (pow_two k) i' × (new i' ≡ old i)

    skip_slot :
        (j : ℕ) (new : ℕ → Entry V) (count : ℕ)
        → (old j).hash == 0 ≡ true
        → Moved j new count
        → Moved (suc j) new count
    skip_slot j new count z g = record {
      sound = g.sound;
      filled = g.filled;
      counted =
          let w : weight (old j) ≡ 0 = rw z refl in
          omega (arith, w, g.counted, busy_count_step old j);
      from_old = λ i v. let (i', l, w, q) = g.from_old i v in (i', omega arith, w, q);
      to_new = λ i l v. elim (Bool-cases (i == j)) [
        | inl y ↦ absurd (not_free k fits old i j v.busy z ((==_iff i j).0 y))
        | inr n ↦ g.to_new i (ground arith) v
      ];
    }

    old-IsLive : (j : ℕ) → j < pow_two m → IsBusy old j → IsLive (pow_two m) old (pow_two m) j
    old-IsLive j l b = record { within = l; busy = b; apart = ne_of_lt j (pow_two m) l }

    is_new :
        (j : ℕ) (new : ℕ → Entry V) (count : ℕ)
        → IsLive (pow_two m) old (pow_two m) j
        → Moved j new count
        → (i : ℕ) → IsLive (pow_two k) new (pow_two k) i
        → (new i).key ≡ (old j).key
        → ⊥
    is_new j new count v g i u q =
        let (i', l, w, s) = g.from_old i u in
        let r = table.unique i' j w v (ap (λ x. x.key) s ∙ q) in absurd (omega (arith, l, r))

    take_slot :
        (j : ℕ) (new : ℕ → Entry V) (count : ℕ)
        → j < pow_two m
        → busy_count old (pow_two m) < pow_two k
        → (old j).hash == 0 ≡ false
        → Moved j new count
        → (i : ℕ) × (free_slot new (ones k) (pow_two k) (home k (old j)) ≡ some i)
          × Moved (suc j) (set_slot new i (old j)) (count + 1)
    take_slot j new count l room b g =
        let v = old-IsLive j l b in
        let w : weight (old j) ≡ 1 = rw b refl in
        let step = busy_count_step old j in
        let fits_room : busy_count new (pow_two k) < pow_two k = omega (
          arith,
          g.filled,
          g.counted,
          w,
          step,
          busy_count_mono old (suc j) (pow_two m) (omega arith),
          room,
        ) in
        let (i, q, i_lt, z, t) =
          free_slot_lem new (old j) g.sound fits_room b (table.hashed j v)
            (is_new j new count v g) in
        (
          i,
          q,
          record {
            sound = t;
            filled =
                let o : weight (new i) ≡ 0 = rw z refl in
                omega (arith, o, w, g.filled, busy_count-set new i (old j) (pow_two k) i_lt);
            counted = omega (arith, w, step, g.counted);
            from_old = λ n u. elim (Bool-cases (n == i)) [
              | inl y ↦ (j, omega arith, v, (rw y refl))
              | inr o ↦
                  let (i', l', w', q') = g.from_old n (IsLive-before new i (old j) n o u) in
                  (i', omega arith, w', q' ∙ sym (set_other new i (old j) n o))
            ];
            to_new = λ n l' u. elim (Bool-cases (n == j)) [
              | inl y ↦ (
                i,
                record {
                  within = i_lt;
                  busy = rw (set_same new i (old j)) b;
                  apart = ne_of_lt i (pow_two k) i_lt;
                },
                set_same new i (old j) ∙ ap old (sym ((==_iff n j).0 y)),
              )
              | inr o ↦
                  let (i', u', q') = g.to_new n (ground arith) u in
                  let apart = busy_ne_free k fits new i' i u'.busy z in
                  (
                    i',
                    IsLive-after new i (old j) i' apart u',
                    set_other new i (old j) i' apart ∙ q',
                  )
            ];
          },
        )

    move_entries_lem :
        (n j : ℕ) (new : ℕ → Entry V) (count : ℕ)
        → j + n ≡ pow_two m
        → busy_count old (pow_two m) < pow_two k
        → Moved j new count
        → (new' : ℕ → Entry V) × (count' : ℕ) × (move_entries (pow_two k) old n j (new, count)
            ≡ some (new', count'))
          × Moved (pow_two m) new' count'
    unfolding move_entries move_entry Option.bind
    move_entries_lem zero j new count q room g =
        let e : j ≡ pow_two m = omega arith in (new, count, refl, rw e at g)
    move_entries_lem (suc n) j new count q room g = elim (Bool-cases ((old j).hash == 0)) [
      | inl z ↦
          let (new', count', r, g') =
            move_entries_lem n (suc j) new count (omega arith) room (skip_slot j new count z g) in
          let s : j + 1 ≡ suc j = omega arith in (new', count', rw (z, s) r, g')
      | inr b ↦
          let (i, f, g1) = take_slot j new count (omega arith) room b g in
          let (new', count', r, g') =
            move_entries_lem n (suc j) (set_slot new i (old j)) (count + 1) (omega arith) room g1 in
          let s : j + 1 ≡ suc j = omega arith in
          let o : pow_two k - 1 ≡ ones k = omega (arith, ones_lem k) in
          (new', count', rw (b, s, o, f) r, g')
    ]

    none_yet : Moved 0 (λ i. empty_slot) 0
    unfolding busy_count
    none_yet = record {
      sound = record {
        hashed = λ i v. absurd (cc (v.busy));
        reach = λ i d v. absurd (cc (v.busy));
        unique = λ i j v. absurd (cc (v.busy));
      };
      filled = busy_count-none V (pow_two k);
      counted = refl;
      from_old = λ i v. absurd (cc (v.busy));
      to_new = λ i l. absurd (omega arith);
    }

    -- The table that holds the same entries in 2 ^ k slots.
    pub record Resized (new : ℕ → Entry V) : Type ℓ where
      pub table' : IsTable k new (pow_two k)
      pub filled' : busy_count new (pow_two k) ≡ busy_count old (pow_two m)
      pub from :
          (i : ℕ)
          → IsLive (pow_two k) new (pow_two k) i
          → (i' : ℕ) × IsLive (pow_two m) old (pow_two m) i' × (old i' ≡ new i)
      pub into :
          (i : ℕ)
          → IsLive (pow_two m) old (pow_two m) i
          → (i' : ℕ) × IsLive (pow_two k) new (pow_two k) i' × (new i' ≡ old i)

    pub resized :
        busy_count old (pow_two m) < pow_two k
        → (new : ℕ → Entry V) × (move_entries (pow_two k) old (pow_two m) 0 ((λ i. empty_slot), 0)
            ≡ some (new, busy_count old (pow_two m)))
          × Resized new
    resized room =
        let (new, count, q, g) =
          move_entries_lem (pow_two m) 0 (λ i. empty_slot) 0 (omega arith) room none_yet in
        (
          new,
          q ∙ ap (λ n. some (new, n)) g.counted,
          record {
            table' = g.sound;
            filled' = g.filled ∙ g.counted;
            from = λ i v. let (i', l, w, s) = g.from_old i v in (i', w, s);
            into = λ i v. g.to_new i v.within v;
          },
        )
