-- ===== src/Map/Close/Emptied.antt =====
-- map.c: _map_entry_remove empties the last hole.
use autark.Prelude.{
  ℕ, ◌+◌, ◌≤◌, ◌<◌, ◌≡◌, refl, sym, ap, ◌∙◌, inl, inr, true, false, arith, ltb, ◌==◌, ltb→lt,
  ==_iff, Bool-cases,
}
use autark.Map.Table.{Entry, set_slot, empty_slot}
use autark.Map.Cycle.{pow_two, at, dist}
use autark.Map.Arcs.{dist-lt, at-dist, dist-at, dist_lt_of, dist_pass}
use autark.Map.Probe.{IsBusy, IsLive, home, IsTable}
use autark.Map.Count.{busy_count, busy_count-set, weight}
use autark.Map.Close.{ne_of_lt, Within, Closing, home_lt, not_free}

module _ {ℓ} {V : Type ℓ} (k : ℕ) (fits : k ≤ 31) where
  module _ (e : ℕ → Entry V) (hole i f : ℕ) (g : Closing k fits e hole i f)
      (z : (e i).hash == 0 ≡ true) where
    unfoldable pub emptied : ℕ → Entry V
    emptied = set_slot e hole empty_slot

    pub emptied_other : (j : ℕ) → j == hole ≡ false → emptied j ≡ e j
    unfolding emptied
    emptied_other j n = rw n

    pub emptied_at : (j : ℕ) → j == hole ≡ true → IsBusy emptied j → ⊥
    unfolding emptied
    emptied_at j y b = let b' : 0 == 0 ≡ false = rw y at b in cc b'

    pub emptied_apart : (j : ℕ) → IsBusy emptied j → j == hole ≡ false
    emptied_apart j b = elim (Bool-cases (j == hole)) [
      | inl y ↦ absurd (emptied_at j y b)
      | inr n ↦ n
    ]

    IsLive-in : (j : ℕ) → IsLive (pow_two k) emptied (pow_two k) j → IsLive (pow_two k) e hole j
    IsLive-in j v =
        let n = emptied_apart j v.busy in
        record { within = v.within; busy = rw (emptied_other j n) at v.busy; apart = n }

    IsLive-out : (j : ℕ) → IsLive (pow_two k) e hole j → IsLive (pow_two k) emptied (pow_two k) j
    IsLive-out j v = record {
      within = v.within;
      busy = rw (emptied_other j v.apart) v.busy;
      apart = ne_of_lt j (pow_two k) v.within;
    }

    -- No entry has the hole on its way.
    off_path :
        (j : ℕ)
        → IsLive (pow_two k) e hole j
        → dist (pow_two k) (home k (e j)) hole < dist (pow_two k) (home k (e j)) j
        → ⊥
    off_path j v l = elim (Bool-cases (ltb (dist (pow_two k) hole j) (dist (pow_two k) hole i))) [
      | inl y ↦ absurd (omega (arith, l, g.between j v (ltb→lt _ _ y)))
      | inr n ↦ elim (Bool-cases (i == j)) [
        | inl y ↦ absurd (not_free k fits e j i v.busy z (sym ((==_iff i j).0 y)))
        | inr m ↦
            let beyond = dist_lt_of (pow_two k) hole i j g.hole_lt g.i_lt v.within m n in
            let p =
              dist_pass (pow_two k) (home k (e j)) (home_lt k fits (e j)) hole i j g.hole_lt g.i_lt
                v.within l beyond in
            let b = g.table.reach j (dist (pow_two k) (home k (e j)) i) v p in
            not_free k fits e (at (pow_two k) (home k (e j)) (dist (pow_two k) (home k (e j)) i)) i
              b z (at-dist (pow_two k) (home k (e j)) (home_lt k fits (e j)) i g.i_lt)
      ]
    ]

    pub emptied_path :
        (j d : ℕ)
        → IsLive (pow_two k) e hole j
        → d < dist (pow_two k) (home k (e j)) j
        → IsBusy emptied (at (pow_two k) (home k (e j)) d)
    emptied_path j d v l =
        let s = at (pow_two k) (home k (e j)) d in
        let fits_d = dist-lt (pow_two k) (home k (e j)) (home_lt k fits (e j)) j v.within in
        elim (Bool-cases (s == hole)) [
          | inl y ↦
              let q : d ≡ dist (pow_two k) (home k (e j)) hole =
                sym (
                  dist-at (pow_two k) (home k (e j)) (home_lt k fits (e j)) d
                    (omega (arith, l, fits_d)))
                ∙ ap (dist (pow_two k) (home k (e j))) ((==_iff s hole).0 y) in
              absurd (off_path j v (rw q at l))
          | inr n ↦ rw (emptied_other s n) (g.table.reach j d v l)
        ]

    pub emptied-IsTable : IsTable k emptied (pow_two k)
    emptied-IsTable = record {
      hashed = λ j v.
          let n = emptied_apart j v.busy in
          rw (emptied_other j n) (g.table.hashed j (IsLive-in j v));
      reach = λ j d v l.
          let n = emptied_apart j v.busy in
          let near : d < dist (pow_two k) (home k (e j)) j = rw (emptied_other j n) at l in
          rw (emptied_other j n) (emptied_path j d (IsLive-in j v) near);
      unique = λ j m v w q. g.table.unique j m (IsLive-in j v) (IsLive-in m w) (
          sym (ap (λ x. x.key) (emptied_other j (emptied_apart j v.busy)))
          ∙ q
          ∙ ap (λ x. x.key) (emptied_other m (emptied_apart m w.busy)));
    }

    pub Within-emptied : Within k fits e hole emptied (pow_two k)
    unfolding Within
    Within-emptied j v = (j, IsLive-out j v, emptied_other j v.apart)

    pub emptied-Within : Within k fits emptied (pow_two k) e hole
    unfolding Within
    emptied-Within j v = (j, IsLive-in j v, sym (emptied_other j (emptied_apart j v.busy)))

    pub emptied_count : busy_count emptied (pow_two k) + 1 ≡ busy_count e (pow_two k)
    unfolding emptied
    emptied_count =
        let w : weight (e hole) ≡ 1 = rw g.stale refl in
        omega (arith, w, busy_count-set e hole empty_slot (pow_two k) g.hole_lt)
