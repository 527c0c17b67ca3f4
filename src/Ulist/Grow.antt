-- ===== src/Ulist/Grow.antt =====
-- ulist.c: the reallocations keep the units.
use autark.Prelude.{
  ℕ, zero, suc, ◌+◌, ◌-◌, ◌^◌, ◌≤◌, ◌<◌, ◌≡◌, refl, ap, ◌∙◌, inl, inr, Option, some, List, [], ◌∷◌,
  ◌++◌, map, arith, length, take, drop, length-map, slice, blit, slice_split, realloc,
  length-realloc, realloc_keeps, ltb, leb, if◌then◌else◌, Bool-cases, suc-ne-zero,
}
use autark.Ulist.{Ulist, u32, alloc_unit, to_front, grow, shrink, reserve}
use autark.Ulist.Holds.{Holds, Holds-bounds}

module _ {ℓ} {A : Type ℓ} where
  realloc_keeps₂ :
      (n : ℕ) (a b c : List (Option A))
      → length a + length b ≤ n
      → realloc n (a ++ (b ++ c)) ≡ a ++ (b ++ realloc (n - length a - length b) c)
  realloc_keeps₂ n a b c h =
      realloc_keeps n a (b ++ c) (omega arith)
      ∙ ap (λ t. a ++ t) (realloc_keeps (n - length a) b c (omega arith))

  -- A block that is full and below 2 ^ 31 cells can be grown: the units stay, with room for one.
  pub grow-Holds : {l : Ulist A} {xs : List A} → Holds l xs → l.anum < 2 ^ 31 → Holds (grow l) xs
  unfolding grow
  grow-Holds {l} {xs} h fits =
      let n = u32 (l.anum + l.num + 1) in
      record {
        pre = h.pre;
        post = realloc (n - length h.pre - length (map {B = Option A} some xs)) h.post;
        splits =
            ap (realloc n) h.splits
            ∙ realloc_keeps₂ n h.pre (map some xs) h.post (
                omega
                  (arith, h.start_is, h.num_is, length-map {B = Option A} some xs, Holds-bounds h));
        start_is = h.start_is;
        num_is = h.num_is;
        anum_is = length-realloc n l.array;
        small = omega arith;
      }

  to_front_splits :
      (start num : ℕ) (a b c : List (Option A))
      → length a ≡ start
      → length b ≡ num
      → (t : List (Option A)) × (to_front start num (a ++ (b ++ c)) ≡ b ++ t)
  unfolding to_front slice blit
  to_front_splits zero num [] b c ha hb = (c, refl)
  to_front_splits zero num (x ∷ a) b c ha hb = absurd (omega arith)
  to_front_splits (suc s) num a b c ha hb = (
    drop (0 + length (take num (drop (suc s) (a ++ (b ++ c))))) (a ++ (b ++ c)),
    rw (suc-ne-zero s) (
        ap (λ t. t ++ drop (0 + length (take num (drop (suc s) (a ++ (b ++ c))))) (a ++ (b ++ c)))
          (slice_split (suc s) num a b c ha hb)),
  )

  -- Whatever part of the units is kept, the shrunk block holds it from its front on.
  pub shrink-Holds :
      (l : Ulist A) (a b : List (Option A)) (xs : List A) (start num : ℕ)
      → l.array ≡ a ++ (map some xs ++ b)
      → length a ≡ start
      → length xs ≡ num
      → num < 2 ^ 32
      → Holds (shrink start num l) xs
  unfolding shrink
  shrink-Holds l a b xs start num e ha hn small =
      let m = map {B = Option A} some xs in
      let hm : length m ≡ num = length-map some xs ∙ hn in
      let (t, front) = to_front_splits start num a m b ha hm in
      let n = if ltb alloc_unit num then num else alloc_unit in
      record {
        pre = [];
        post = realloc (n - length m) t;
        splits =
            ap (λ c. realloc n (to_front start num c)) e
            ∙ ap (realloc n) front
            ∙ realloc_keeps n m t (ground arith);
        start_is = refl;
        num_is = hn;
        anum_is = length-realloc n (to_front start num l.array);
        small = ground arith;
      }

  -- What `reserve` leaves: the same units at the same place, and a cell free behind them.
  pub record Reserved (l : Ulist A) (xs : List A) (r : Ulist A) : Type ℓ where
    pub holds : Holds r xs
    pub same_start : r.start ≡ l.start
    pub same_num : r.num ≡ l.num
    pub room : r.start + r.num < r.anum

  pub reserve-Reserved :
      {l : Ulist A} {xs : List A} → Holds l xs → l.anum < 2 ^ 31 → Reserved l xs (reserve l)
  unfolding reserve
  reserve-Reserved {l} {xs} h fits = elim (Bool-cases (leb l.anum (u32 (l.start + l.num)))) [
    | inl full ↦ rw full (record {
      holds = grow-Holds h fits;
      same_start = refl;
      same_num = refl;
      room = ground (arith, Holds-bounds h);
    })
    | inr free ↦ rw free (record {
      holds = h;
      same_start = refl;
      same_num = refl;
      room = ground (arith, Holds-bounds h);
    })
  ]
