-- ===== src/Map/Close/Moved.antt =====
-- map.c: _map_entry_remove moves an entry back into the hole.
use autark.Prelude.{
  ℕ, ◌≤◌, ◌<◌, ◌≡◌, refl, sym, ap, ◌∙◌, inl, inr, true, false, arith, leb, ◌==◌, ==_iff, Bool-cases,
}
use autark.Map.Table.{Entry, set_slot}
use autark.Map.Cycle.{pow_two, at, dist, next}
use autark.Map.Arcs.{dist_self}
use autark.Map.Probe.{IsBusy, IsLive, home, IsTable}
use autark.Map.Insert.{set_same}
use autark.Map.Count.{busy_count, busy_count-set, weight}
use autark.Map.Close.{lt_leb, ne_sym, Within, Closing, busy_ne_free, fresh-Closing}

module _ {ℓ} {V : Type ℓ} (k : ℕ) (fits : k ≤ 31) where
  -- The entry of slot i is moved into the hole, and slot i is the hole then.
  module _ (e : ℕ → Entry V) (hole i f : ℕ) (g : Closing k fits e hole i f) (b : IsBusy e i) where
    unfoldable pub moved : ℕ → Entry V
    moved = set_slot e hole (e i)

    away : (i == hole ≡ false) × (hole == i ≡ false)
    away = elim (Bool-cases (i == hole)) [
      | inl y ↦
          let z : dist (pow_two k) hole i ≡ 0 =
            ap (dist (pow_two k) hole) ((==_iff i hole).0 y)
            ∙ dist_self (pow_two k) hole g.hole_lt in
          absurd (omega (arith, z, g.ahead))
      | inr n ↦ (n, ground arith)
    ]

    pub mover : IsLive (pow_two k) e hole i
    mover = record { within = g.i_lt; busy = b; apart = away.0 }

    pub moved_same : moved hole ≡ e i
    unfolding moved
    moved_same = set_same e hole (e i)

    pub moved_at : (j : ℕ) → j == hole ≡ true → moved j ≡ e i
    unfolding moved
    moved_at j y = rw y

    pub moved_other : (j : ℕ) → j == hole ≡ false → moved j ≡ e j
    unfolding moved
    moved_other j n = rw n

    pub moved-IsBusy : (j : ℕ) → IsBusy e j → IsBusy moved j
    moved-IsBusy j y = elim (Bool-cases (j == hole)) [
      | inl t ↦ rw (moved_at j t) b
      | inr t ↦ rw (moved_other j t) y
    ]

    IsLive-back :
        (j : ℕ) → j == hole ≡ false → IsLive (pow_two k) moved i j → IsLive (pow_two k) e hole j
    IsLive-back j n v = record {
      within = v.within;
      busy = rw (moved_other j n) at v.busy;
      apart = n;
    }

    pub moved-IsTable :
        leb (dist (pow_two k) (home k (e i)) hole) (dist (pow_two k) (home k (e i)) i) ≡ true
        → IsTable k moved i
    moved-IsTable on = record {
      hashed = λ j v. elim (Bool-cases (j == hole)) [
        | inl y ↦ rw (moved_at j y) (g.table.hashed i mover)
        | inr n ↦ rw (moved_other j n) (g.table.hashed j (IsLive-back j n v))
      ];
      reach = λ j d v l. elim (Bool-cases (j == hole)) [
        | inl y ↦
            let js = (==_iff j hole).0 y in
            let near : d < dist (pow_two k) (home k (e i)) j = rw (moved_at j y) at l in
            let nearer : d < dist (pow_two k) (home k (e i)) hole = rw js at near in
            rw (moved_at j y) (
              moved-IsBusy (at (pow_two k) (home k (e i)) d)
                (g.table.reach i d mover (lt_leb _ _ _ nearer on)))
        | inr n ↦
            let near : d < dist (pow_two k) (home k (e j)) j = rw (moved_other j n) at l in
            rw (moved_other j n) (
              moved-IsBusy (at (pow_two k) (home k (e j)) d)
                (g.table.reach j d (IsLive-back j n v) near))
      ];
      unique = λ j m v w q. elim (Bool-cases (j == hole)) [
        | inl y ↦ elim (Bool-cases (m == hole)) [
          | inl z ↦ (==_iff j hole).0 y ∙ sym ((==_iff m hole).0 z)
          | inr z ↦
              let q' : (e i).key ≡ (e m).key =
                sym (ap (λ x. x.key) (moved_at j y)) ∙ q ∙ ap (λ x. x.key) (moved_other m z) in
              absurd (no_clash m w.apart (g.table.unique i m mover (IsLive-back m z w) q'))
        ]
        | inr y ↦ elim (Bool-cases (m == hole)) [
          | inl z ↦
              let q' : (e i).key ≡ (e j).key =
                sym (ap (λ x. x.key) (moved_at m z)) ∙ sym q ∙ ap (λ x. x.key) (moved_other j y) in
              absurd (no_clash j v.apart (g.table.unique i j mover (IsLive-back j y v) q'))
          | inr z ↦
              g.table.unique j m (IsLive-back j y v) (IsLive-back m z w)
                (sym (ap (λ x. x.key) (moved_other j y)) ∙ q ∙ ap (λ x. x.key) (moved_other m z))
        ]
      ];
    }
      where
        no_clash : (m : ℕ) → m == i ≡ false → i ≡ m → ⊥
        no_clash m n q = cc (n, (==_iff m i).1 (sym q))

    pub move-Closing :
        leb (dist (pow_two k) (home k (e i)) hole) (dist (pow_two k) (home k (e i)) i) ≡ true
        → Closing k fits moved i (next (pow_two k) i) f
    move-Closing on =
        fresh-Closing k fits moved i f (moved-IsTable on) g.i_lt (moved-IsBusy i b) g.f_lt
          (rw (moved_other f (ne_sym hole f (busy_ne_free k fits e hole f g.stale g.free))) g.free)

    pub moved_count : busy_count moved (pow_two k) ≡ busy_count e (pow_two k)
    unfolding moved
    moved_count =
        let w : weight (e hole) ≡ 1 = rw g.stale refl in
        let x : weight (e i) ≡ 1 = rw b refl in
        omega (arith, w, x, busy_count-set e hole (e i) (pow_two k) g.hole_lt)

    pub Within-moved : Within k fits e hole moved i
    unfolding Within
    Within-moved j v = elim (Bool-cases (j == i)) [
      | inl y ↦ (
        hole,
        record { within = g.hole_lt; busy = rw moved_same b; apart = away.1 },
        moved_same ∙ ap e (sym ((==_iff j i).0 y)),
      )
      | inr n ↦ (
        j,
        record { within = v.within; busy = rw (moved_other j v.apart) v.busy; apart = n },
        moved_other j v.apart,
      )
    ]

    pub moved-Within : Within k fits moved i e hole
    unfolding Within
    moved-Within j v = elim (Bool-cases (j == hole)) [
      | inl y ↦ (i, mover, sym (moved_at j y))
      | inr n ↦ (j, IsLive-back j n v, sym (moved_other j n))
    ]
