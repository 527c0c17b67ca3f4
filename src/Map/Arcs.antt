-- ===== src/Map/Arcs.antt =====
-- map.c: distances between slots in the order of probing.
use autark.Prelude.{ℕ, suc, ◌+◌, ◌<◌, ◌≡◌, false, arith, ltb, ◌==◌}
use autark.Map.Cycle.{next, at, dist}

module _ (c h : ℕ) (home : h < c) where
  pub at-lt : (d : ℕ) → d < c → at c h d < c
  at-lt d l = ground arith

  pub dist-lt : (i : ℕ) → i < c → dist c h i < c
  dist-lt i l = ground arith

  pub at-dist : (i : ℕ) → i < c → at c h (dist c h i) ≡ i
  at-dist i l = ground arith

  pub dist-at : (d : ℕ) → d < c → dist c h (at c h d) ≡ d
  dist-at d l = ground arith

  pub next-at : (d : ℕ) → suc d < c → next c (at c h d) ≡ at c h (suc d)
  next-at d l = ground arith

  pub at_zero : at c h 0 ≡ h
  at_zero = ground arith

module _ (c h : ℕ) (home : h < c) where
  pub dist_inj : (i j : ℕ) → i < c → j < c → dist c h i ≡ dist c h j → i ≡ j
  dist_inj i j l m q = ground arith

  pub dist-next : (i : ℕ) → i < c → suc (dist c h i) < c → dist c h (next c i) ≡ suc (dist c h i)
  dist-next i l m = ground arith

  pub next-lt : (i : ℕ) → i < c → next c i < c
  next-lt i l = ground arith

  pub dist_self : dist c h h ≡ 0
  dist_self = ground arith

  -- What lies beyond a slot is as much farther as it is away from the slot.
  pub dist_via :
      (i j : ℕ) → i < c → j < c → dist c h i < dist c h j → dist c h j ≡ dist c h i + dist c i j
  dist_via i j l m b = ground arith

  pub dist_pass :
      (i s j : ℕ)
      → i < c
      → s < c
      → j < c
      → dist c h i < dist c h j
      → dist c i s < dist c i j
      → dist c h s < dist c h j
  dist_pass i s j a b d l m = ground arith

pub dist_next_from :
    (c i f : ℕ) → i < c → f < c → i == f ≡ false → suc (dist c (next c i) f) ≡ dist c i f
dist_next_from c i f l m n = ground arith

pub dist_lt_of :
    (c h i j : ℕ)
    → h < c
    → i < c
    → j < c
    → i == j ≡ false
    → ltb (dist c h j) (dist c h i) ≡ false
    → dist c h i < dist c h j
dist_lt_of c h i j a l m n o = ground arith
