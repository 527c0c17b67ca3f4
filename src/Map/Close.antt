-- ===== src/Map/Close.antt =====
-- map.c: the loop of _map_entry_remove closes the hole and loses nothing else.
mod Moved
mod Emptied
pub mod Loop
use autark.Prelude.{
  ℕ, ◌≤◌, ◌<◌, ◌≡◌, inl, inr, true, false, arith, ltb, leb, ◌==◌, ltb→lt, ==_iff, Bool-cases,
}
use autark.Map.Table.{Entry, set_slot, empty_slot, bit_and, next_slot}
use autark.Map.{close_hole, on_path}
use autark.Map.Cycle.{pow_two, ones, at, dist, next, bit_and-lt, next_slot_lem, on_path_lem}
use autark.Map.Arcs.{
  at-lt, dist-lt, at-dist, dist-at, dist_inj, dist_lt_of, dist_next_from, dist-next, next-lt,
  dist_self, dist_pass,
}
use autark.Map.Probe.{hash_of, IsBusy, IsLive, home, IsTable}
use autark.Map.Insert.{set_other, set_same}
use autark.Map.Count.{busy_count, busy_count-set, weight}

pub leb_false→lt : (a b : ℕ) → leb a b ≡ false → b < a
leb_false→lt a b h = ground arith

pub lt_leb : (d a b : ℕ) → d < a → leb a b ≡ true → d < b
lt_leb d a b l h = ground arith

pub ne_of_test : (a b : ℕ) → a == b ≡ false → a ≡ b → ⊥
ne_of_test a b n q = cc (n, (==_iff a b).1 q)

pub ne_sym : (a b : ℕ) → a == b ≡ false → b == a ≡ false
ne_sym a b n = ground arith

pub dist_pos : (c i f : ℕ) → i < c → f < c → i == f ≡ false → 0 < dist c i f
dist_pos c i f l m n = ground arith

pub ne_of_lt : (a b : ℕ) → a < b → a == b ≡ false
ne_of_lt a b l = ground arith

module _ {ℓ} {V : Type ℓ} (k : ℕ) (fits : k ≤ 31) where
  -- Every entry of the one table is in the other.
  unfoldable pub Within : (ℕ → Entry V) → ℕ → (ℕ → Entry V) → ℕ → Type ℓ
  Within e hole e' hole' =
      (j : ℕ)
      → IsLive (pow_two k) e hole j
      → (j' : ℕ) × IsLive (pow_two k) e' hole' j' × (e' j' ≡ e j)

  -- The loop has come from the hole to slot i; f is an empty slot. No entry between the two has
  -- the hole on its way.
  pub record Closing (e : ℕ → Entry V) (hole i f : ℕ) : Type ℓ where
    pub table : IsTable k e hole
    pub hole_lt : hole < pow_two k
    pub stale : IsBusy e hole
    pub i_lt : i < pow_two k
    pub f_lt : f < pow_two k
    pub free : (e f).hash == 0 ≡ true
    pub ahead : 0 < dist (pow_two k) hole i
    pub near : dist (pow_two k) hole i ≤ dist (pow_two k) hole f
    pub between :
        (j : ℕ)
        → IsLive (pow_two k) e hole j
        → dist (pow_two k) hole j < dist (pow_two k) hole i
        → dist (pow_two k) (home k (e j)) j < dist (pow_two k) (home k (e j)) hole

  pub home_lt : (x : Entry V) → home k x < pow_two k
  home_lt x = bit_and-lt k fits x.hash

  pub not_free : (e : ℕ → Entry V) (i f : ℕ) → IsBusy e i → (e f).hash == 0 ≡ true → i ≡ f → ⊥
  not_free e i f b z q = let b' : IsBusy e f = rw q at b in cc (b', z)

  -- A busy slot that the loop passes is in front of the empty one.
  pub passes :
      (e : ℕ → Entry V) (hole i f : ℕ) (g : Closing e hole i f)
      → IsBusy e i
      → dist (pow_two k) hole i < dist (pow_two k) hole f
  passes e hole i f g b =
      elim (Bool-cases (ltb (dist (pow_two k) hole i) (dist (pow_two k) hole f))) [
        | inl l ↦ ltb→lt _ _ l
        | inr n ↦
            let q : dist (pow_two k) hole i ≡ dist (pow_two k) hole f = ground (arith, g.near) in
            absurd
              (not_free e i f b g.free (dist_inj (pow_two k) hole g.hole_lt i f g.i_lt g.f_lt q))
      ]

  pub busy_ne_free :
      (e : ℕ → Entry V) (i f : ℕ) → IsBusy e i → (e f).hash == 0 ≡ true → i == f ≡ false
  busy_ne_free e i f b z = elim (Bool-cases (i == f)) [
    | inl y ↦ absurd (not_free e i f b z ((==_iff i f).0 y))
    | inr n ↦ n
  ]

  pub keep-Closing :
      (e : ℕ → Entry V) (hole i f : ℕ) (g : Closing e hole i f)
      → IsBusy e i
      → leb (dist (pow_two k) (home k (e i)) hole) (dist (pow_two k) (home k (e i)) i) ≡ false
      → Closing e hole (next (pow_two k) i) f
  keep-Closing e hole i f g b off =
      let l = passes e hole i f g b in
      let fl = dist-lt (pow_two k) hole g.hole_lt f g.f_lt in
      let q = dist-next (pow_two k) hole g.hole_lt i g.i_lt (omega (arith, l, fl)) in
      record {
        table = g.table;
        hole_lt = g.hole_lt;
        stale = g.stale;
        i_lt = next-lt (pow_two k) hole g.hole_lt i g.i_lt;
        f_lt = g.f_lt;
        free = g.free;
        ahead = omega (arith, q);
        near = omega (arith, q, l);
        between = λ j v m.
            elim (Bool-cases (ltb (dist (pow_two k) hole j) (dist (pow_two k) hole i))) [
              | inl y ↦ g.between j v (ltb→lt _ _ y)
              | inr n ↦
                  let s : dist (pow_two k) hole j ≡ dist (pow_two k) hole i =
                    ground (arith, m, q) in
                  let r = dist_inj (pow_two k) hole g.hole_lt j i v.within g.i_lt s in
                  let o : dist (pow_two k) (home k (e i)) i < dist (pow_two k) (home k (e i)) hole =
                    leb_false→lt _ _ off in
                  rw r o
            ];
      }

  -- The loop has just left a hole, which a busy slot becomes.
  pub fresh-Closing :
      (e : ℕ → Entry V) (i f : ℕ)
      → IsTable k e i
      → i < pow_two k
      → IsBusy e i
      → f < pow_two k
      → (e f).hash == 0 ≡ true
      → Closing e i (next (pow_two k) i) f
  fresh-Closing e i f t i_lt b f_lt z =
      let far : 0 < dist (pow_two k) i f =
        dist_pos (pow_two k) i f i_lt f_lt (busy_ne_free e i f b z) in
      let q =
        dist-next (pow_two k) i i_lt i i_lt
          (omega (arith, far, dist-lt (pow_two k) i i_lt f f_lt, dist_self (pow_two k) i i_lt)) in
      record {
        table = t;
        hole_lt = i_lt;
        stale = b;
        i_lt = next-lt (pow_two k) i i_lt i i_lt;
        f_lt = f_lt;
        free = z;
        ahead = omega (arith, q);
        near = omega (arith, q, far, dist_self (pow_two k) i i_lt);
        between = λ j v m.
            let s : dist (pow_two k) i j ≡ dist (pow_two k) i i =
              omega (arith, q, m, dist_self (pow_two k) i i_lt) in
            absurd (ne_of_test j i v.apart (dist_inj (pow_two k) i i_lt j i v.within i_lt s));
      }

  -- A table is one with a hole too.
  pub hole-IsTable : (e : ℕ → Entry V) (hole : ℕ) → IsTable k e (pow_two k) → IsTable k e hole
  hole-IsTable e hole t = record {
    hashed = λ i v. t.hashed i (full i v);
    reach = λ i d v. t.reach i d (full i v);
    unique = λ i j v w. t.unique i j (full i v) (full j w);
  }
    where
      full : (i : ℕ) → IsLive (pow_two k) e hole i → IsLive (pow_two k) e (pow_two k) i
      full i v = record {
        within = v.within;
        busy = v.busy;
        apart = ne_of_lt i (pow_two k) v.within;
      }
