-- ===== src/Ulist/Remove.antt =====
-- ulist.c: remove, pop, shift and their reallocation, against the list of the units held.
use autark.Prelude.{
  ℕ, zero, suc, ◌+◌, ◌-◌, ◌*◌, ◌≤◌, ◌<◌, ◌≡◌, refl, sym, ap, ◌∙◌, inl, inr, true, false, ◌&&◌,
  Option, some, List, [], ◌∷◌, ◌++◌, map, append_assoc, map-append, arith, length, drop,
  length-append, length-drop, length-map, memmove, memmove_down, ltb, leb, ◌==◌, Bool-cases,
}
use autark.Ulist.{Ulist, u32, alloc_unit, shrink, remove, pop, shift}
use autark.Ulist.Holds.{Holds, Holds-bounds}
use autark.Ulist.Grow.{shrink-Holds}
use autark.Ulist.Cut.{cut, Holds-of-cut}

-- The list without its unit `idx`.
unfoldable pub remove_at {ℓ} : {A : Type ℓ} → ℕ → List A → List A
remove_at idx [] = []
remove_at zero (x ∷ xs) = xs
remove_at (suc idx) (x ∷ xs) = x ∷ remove_at idx xs

-- The list without its last unit.
unfoldable pub drop_last {ℓ} : {A : Type ℓ} → List A → List A
drop_last [] = []
drop_last (x ∷ []) = []
drop_last (x ∷ y ∷ xs) = x ∷ drop_last (y ∷ xs)

unfoldable pub tail {ℓ} : {A : Type ℓ} → List A → List A
tail [] = []
tail (x ∷ xs) = xs

module _ {ℓ} {A : Type ℓ} where
  split_at :
      (idx : ℕ) (xs : List A)
      → idx < length xs
      → (us : List A) × (x : A) × (vs : List A) × (xs ≡ us ++ (x ∷ vs))
        × (length us ≡ idx)
        × (remove_at idx xs ≡ us ++ vs)
  unfolding remove_at
  split_at idx [] h = absurd (omega arith)
  split_at zero (x ∷ xs) h = ([], x, xs, refl, refl, refl)
  split_at (suc idx) (x ∷ xs) h =
      let (us, y, vs, e, n, r) = split_at idx xs (omega arith) in
      (x ∷ us, y, vs, ap (λ t. x ∷ t) e, ap suc n, ap (λ t. x ∷ t) r)

  remove_at_out : (idx : ℕ) (xs : List A) → length xs ≤ idx → remove_at idx xs ≡ xs
  unfolding remove_at
  remove_at_out idx [] h = refl
  remove_at_out zero (x ∷ xs) h = absurd (omega arith)
  remove_at_out (suc idx) (x ∷ xs) h = ap (λ t. x ∷ t) (remove_at_out idx xs (omega arith))

  split_last :
      (xs : List A)
      → 0 < length xs
      → (us : List A) × (x : A) × (xs ≡ us ++ (x ∷ [])) × (drop_last xs ≡ us)
  unfolding drop_last
  split_last [] h = absurd (omega arith)
  split_last (x ∷ []) h = ([], x, refl, refl)
  split_last (x ∷ y ∷ xs) h =
      let (us, z, e, r) = split_last (y ∷ xs) (omega arith) in
      (x ∷ us, z, ap (λ t. x ∷ t) e, ap (λ t. x ∷ t) r)

  -- Giving the free part of the block back keeps the units.
  shrink_held : {l : Ulist A} {xs : List A} → Holds l xs → Holds (shrink l.start l.num l) xs
  shrink_held {l} {xs} h =
      shrink-Holds l h.pre h.post xs l.start l.num h.splits h.start_is h.num_is
        (omega (arith, Holds-bounds h, h.small))

  drop_last_cells :
      {l : Ulist A} (xs : List A) (x : A) (n : ℕ)
      → Holds l (xs ++ (x ∷ []))
      → n ≡ l.num - 1
      → Holds (record l { num = n }) xs
  drop_last_cells {l} xs x n h e =
      let m = map {B = Option A} some xs in
      let hl : length xs + 1 ≡ l.num = sym (length-append xs (x ∷ [])) ∙ h.num_is in
      record {
        pre = h.pre;
        post = some x ∷ h.post;
        splits =
            h.splits
            ∙ ap (λ t. h.pre ++ (t ++ h.post)) (map-append some xs (x ∷ []))
            ∙ ap (λ t. h.pre ++ t) (append_assoc m (some x ∷ []) h.post);
        start_is = h.start_is;
        num_is = omega arith;
        anum_is = h.anum_is;
        small = h.small;
      }

  shift_cells :
      {l : Ulist A} (x : A) (xs : List A) (n : ℕ)
      → Holds l (x ∷ xs)
      → n ≡ l.num - 1
      → Holds (record l { start = l.start + 1; num = n }) xs
  shift_cells {l} x xs n h e = record {
    pre = h.pre ++ (some x ∷ []);
    post = h.post;
    splits = h.splits ∙ sym (append_assoc h.pre (some x ∷ []) (map some xs ++ h.post));
    start_is = omega (arith, length-append h.pre (some x ∷ []), h.start_is);
    num_is = omega (arith, h.num_is);
    anum_is = h.anum_is;
    small = h.small;
  }

  remove_cells :
      {l : Ulist A} (xs : List A) (x : A) (ys : List A) (i n k : ℕ)
      → Holds l (xs ++ (x ∷ ys))
      → i ≡ l.start + length xs
      → n ≡ length ys
      → k ≡ l.num - 1
      → Holds (record l { array = memmove i (i + 1) n l.array; num = k }) (xs ++ ys)
  remove_cells {l} xs x ys i n k h hi hn hk =
      let c = cut xs (x ∷ ys) h in
      let m = map {B = Option A} some ys in
      let hm : length m ≡ length ys = length-map some ys in
      let hl : l.num ≡ length xs + suc (length ys) =
        omega (arith, h.num_is, length-append xs (x ∷ ys)) in
      Holds-of-cut xs ys c.cut_pre c.front (drop (length m) (some x ∷ (m ++ c.back)))
        (ap (memmove i (i + 1) n) c.splits
          ∙ memmove_down i n (some x) c.front m c.back (omega (arith, c.front_is)) (omega arith))
        c.front_splits c.pre_is (omega arith)
        (omega (
          arith,
          length-drop (length m) (some x ∷ (m ++ c.back)),
          length-append m c.back,
          c.back_is,
        ))
        h.small

  remove-Holds :
      {l : Ulist A} (idx : ℕ) (xs : List A) (x : A) (ys : List A)
      → Holds l (xs ++ (x ∷ ys))
      → length xs ≡ idx
      → Holds (remove l idx) (xs ++ ys)
  unfolding remove
  remove-Holds {l} idx xs x ys h e =
      let hl : l.num ≡ length xs + suc (length ys) = sym h.num_is ∙ length-append xs (x ∷ ys) in
      let inside : leb l.num idx ≡ false = ground arith in
      let n = l.num - 1 in
      let i = u32 (idx + l.start) in
      let held =
        remove_cells xs x ys i (l.start + n - i) n h (omega (arith, Holds-bounds h, h.small))
          (omega (arith, Holds-bounds h, h.small)) refl in
      rw inside (elim (Bool-cases (ltb alloc_unit l.anum && leb (u32 (n * 2)) l.anum)) [
        | inl half ↦ rw half (shrink_held held)
        | inr busy ↦ rw busy held
      ])

  remove_out : (l : Ulist A) (idx : ℕ) → leb l.num idx ≡ true → remove l idx ≡ l
  unfolding remove
  remove_out l idx out = rw out

  -- remove takes out the unit at its index, whether or not it gives memory back, and changes
  -- nothing if the index is out of range.
  pub remove_refines :
      {l : Ulist A} {xs : List A} (idx : ℕ) → Holds l xs → Holds (remove l idx) (remove_at idx xs)
  remove_refines {l} {xs} idx h = elim (Bool-cases (leb l.num idx)) [
    | inl out ↦ rw (remove_out l idx out, remove_at_out idx xs (ground (arith, h.num_is))) h
    | inr inside ↦
        let (us, x, vs, e, n, r) = split_at idx xs (ground (arith, h.num_is)) in
        rw r (remove-Holds idx us x vs (rw e at h) n)
  ]

  pop-Holds : {l : Ulist A} (xs : List A) (x : A) → Holds l (xs ++ (x ∷ [])) → Holds (pop l) xs
  unfolding pop
  pop-Holds {l} xs x h =
      let hl : l.num ≡ length xs + 1 = sym h.num_is ∙ length-append xs (x ∷ []) in
      let some_left : (l.num == 0) ≡ false = ground arith in
      let n = l.num - 1 in
      let held = drop_last_cells xs x n h refl in
      rw some_left (elim (Bool-cases (ltb alloc_unit l.anum && leb (n * 2) l.anum)) [
        | inl half ↦ rw half (shrink_held held)
        | inr busy ↦ rw busy held
      ])

  -- pop drops the last unit, and changes nothing if there is none.
  pub pop_refines : {l : Ulist A} (xs : List A) → Holds l xs → Holds (pop l) (drop_last xs)
  unfolding drop_last pop
  pop_refines {l} [] h =
      let none_left : (l.num == 0) ≡ true = ground (arith, h.num_is) in rw none_left h
  pop_refines {l} (x ∷ xs) h =
      let (us, y, e, r) = split_last (x ∷ xs) (omega arith) in rw r (pop-Holds us y (rw e at h))

  -- shift drops the first unit, and changes nothing if there is none.
  pub shift_refines : {l : Ulist A} (xs : List A) → Holds l xs → Holds (shift l) (tail xs)
  unfolding shift tail
  shift_refines {l} [] h =
      let none_left : (l.num == 0) ≡ true = ground (arith, h.num_is) in rw none_left h
  shift_refines {l} (x ∷ xs) h =
      let some_left : (l.num == 0) ≡ false = ground (arith, h.num_is) in
      let n = l.num - 1 in
      let held = shift_cells x xs n h refl in
      rw some_left (elim (Bool-cases (ltb alloc_unit l.anum && leb (n * 2) l.anum)) [
        | inl half ↦ rw half (shrink_held held)
        | inr busy ↦ rw busy held
      ])
