-- ===== src/Map/Close/Loop.antt =====
-- map.c: the loop of _map_entry_remove ends at the first empty slot, with the hole closed.
use autark.Prelude.{
  ℕ, zero, suc, ◌+◌, ◌≤◌, ◌<◌, ◌≡◌, sym, ◌∙◌, inl, inr, Bool, true, false, Option, some, arith,
  ◌==◌, if◌then◌else◌, Bool-cases,
}
use autark.Map.Table.{Entry, set_slot, empty_slot, next_slot}
use autark.Map.{close_hole, on_path}
use autark.Map.Cycle.{pow_two, ones, dist, next, next_slot_lem, on_path_lem}
use autark.Map.Arcs.{dist_next_from, dist-lt}
use autark.Map.Probe.{IsBusy, IsLive, home, IsTable}
use autark.Map.Count.{busy_count}
use autark.Map.Close.{
  Within, Closing, home_lt, busy_ne_free, keep-Closing, fresh-Closing, hole-IsTable,
}
use autark.Map.Close.Moved.{moved, move-Closing, moved_count, Within-moved, moved-Within}
use autark.Map.Close.Emptied.{
  emptied, emptied-IsTable, emptied_count, Within-emptied, emptied-Within,
}

module _ {ℓ} {V : Type ℓ} (k : ℕ) (fits : k ≤ 31) where
  -- The table without the entry of the hole.
  pub record Closed (e : ℕ → Entry V) (hole : ℕ) (after : ℕ → Entry V) : Type ℓ where
    pub table : IsTable k after (pow_two k)
    pub lost : busy_count after (pow_two k) + 1 ≡ busy_count e (pow_two k)
    pub kept : Within k fits e hole after (pow_two k)
    pub no_more : Within k fits after (pow_two k) e hole

  -- What the loop answers.
  unfoldable pub Closes : (e : ℕ → Entry V) (hole : ℕ) → Option ((ℕ → Entry V) × ℕ) → Type ℓ
  Closes e hole o =
      (e' : ℕ → Entry V) × (h' : ℕ) × (o ≡ some (e', h'))
      × Closed e hole (set_slot e' h' empty_slot)

  Within-trans :
      (a : ℕ → Entry V) (x : ℕ) (b : ℕ → Entry V) (y : ℕ) (d : ℕ → Entry V) (z : ℕ)
      → Within k fits a x b y
      → Within k fits b y d z
      → Within k fits a x d z
  unfolding Within
  Within-trans a x b y d z p q j v =
      let (j', v', s) = p j v in let (m, w, t) = q j' v' in (m, w, t ∙ s)

  through_move :
      (e : ℕ → Entry V) (hole i f : ℕ) (g : Closing k fits e hole i f) (b : IsBusy e i)
      (after : ℕ → Entry V)
      → Closed (moved k fits e hole i f g b) i after
      → Closed e hole after
  through_move e hole i f g b after r = record {
    table = r.table;
    lost = r.lost ∙ moved_count k fits e hole i f g b;
    kept =
        Within-trans e hole (moved k fits e hole i f g b) i after (pow_two k)
          (Within-moved k fits e hole i f g b) r.kept;
    no_more =
        Within-trans after (pow_two k) (moved k fits e hole i f g b) i e hole r.no_more
          (moved-Within k fits e hole i f g b);
  }

  step :
      (n : ℕ) (e : ℕ → Entry V) (hole i f : ℕ) (g : Closing k fits e hole i f)
      → IsBusy e i
      → (moves : Bool) → on_path (ones k) (home k (e i)) hole i ≡ moves
      → close_hole (ones k) (suc n) e hole i
        ≡ close_hole
            (ones k)
            n
            (if moves then set_slot e hole (e i) else e)
            (if moves then i else hole)
            (next (pow_two k) i)
  unfolding close_hole
  step n e hole i f g b moves q = rw (b, q, next_slot_lem k fits i g.i_lt)

  emptied-Closed :
      (e : ℕ → Entry V) (hole i f : ℕ) (g : Closing k fits e hole i f) (z : (e i).hash == 0 ≡ true)
      → Closed e hole (set_slot e hole empty_slot)
  unfolding emptied
  emptied-Closed e hole i f g z = record {
    table = emptied-IsTable k fits e hole i f g z;
    lost = emptied_count k fits e hole i f g z;
    kept = Within-emptied k fits e hole i f g z;
    no_more = emptied-Within k fits e hole i f g z;
  }

  pub close_hole_lem :
      (n : ℕ) (e : ℕ → Entry V) (hole i f : ℕ) (g : Closing k fits e hole i f)
      → dist (pow_two k) i f < n
      → Closes e hole (close_hole (ones k) n e hole i)
  unfolding Closes close_hole moved
  close_hole_lem zero e hole i f g l = absurd (omega arith)
  close_hole_lem (suc n) e hole i f g l = elim (Bool-cases ((e i).hash == 0)) [
    | inl z ↦ (e, hole, rw z, emptied-Closed e hole i f g z)
    | inr b ↦
        let t = on_path_lem k fits (home k (e i)) hole i (home_lt k fits (e i)) g.hole_lt g.i_lt in
        let near : dist (pow_two k) (next (pow_two k) i) f < n = omega (
          arith,
          l,
          dist_next_from (pow_two k) i f g.i_lt g.f_lt (busy_ne_free k fits e i f b g.free),
        ) in
        elim (Bool-cases (on_path (ones k) (home k (e i)) hole i)) [
          | inl on ↦
              let g' = move-Closing k fits e hole i f g b (sym t ∙ on) in
              let (e', h', q, r) =
                close_hole_lem n (moved k fits e hole i f g b) i (next (pow_two k) i) f g' near in
              (
                e',
                h',
                step n e hole i f g b true on ∙ q,
                through_move e hole i f g b (set_slot e' h' empty_slot) r,
              )
          | inr off ↦
              let g' = keep-Closing k fits e hole i f g b (sym t ∙ off) in
              let (e', h', q, r) = close_hole_lem n e hole (next (pow_two k) i) f g' near in
              (e', h', step n e hole i f g b false off ∙ q, r)
        ]
  ]

  -- From a table with an entry in slot i and an empty slot f.
  pub close_table :
      (e : ℕ → Entry V) (i f : ℕ)
      → IsTable k e (pow_two k)
      → IsLive (pow_two k) e (pow_two k) i
      → f < pow_two k
      → (e f).hash == 0 ≡ true
      → Closes e i (close_hole (ones k) (pow_two k) e i (next_slot (ones k) i))
  close_table e i f t v f_lt z =
      let g = fresh-Closing k fits e i f (hole-IsTable k fits e i t) v.within v.busy f_lt z in
      rw (next_slot_lem k fits i v.within) (
        close_hole_lem (pow_two k) e i (next (pow_two k) i) f g
          (dist-lt (pow_two k) (next (pow_two k) i) g.i_lt f f_lt))
