-- ===== src/Ulist/Refine.antt =====
-- ulist.c: push and insert against the list of the units held.
use autark.Prelude.{
  ℕ, suc, ◌+◌, ◌-◌, ◌^◌, ◌<◌, ◌≡◌, refl, sym, ap, ◌∙◌, inl, inr, true, false, Option, some, List,
  [], ◌∷◌, ◌++◌, map, append_assoc, arith, length, take, drop, length-append, take-append-drop,
  length-take, length-drop, length-map, slice, blit, memmove, slice_split, blit_at, blit_gap,
  nonempty_split, ltb, if◌then◌else◌, Bool-cases,
}
use autark.Ulist.{Ulist, u32, reserve, push, insert}
use autark.Ulist.Holds.{Holds, Holds-bounds}
use autark.Ulist.Grow.{reserve-Reserved}
use autark.Ulist.Cut.{cut, Holds-of-cut}

-- The list with `x` before its unit `idx`; what is out of range is no place to insert at.
unfoldable pub insert_at {ℓ} : {A : Type ℓ} → ℕ → A → List A → List A
insert_at idx x xs = if ltb (length xs) idx then xs else take idx xs ++ (x ∷ drop idx xs)

module _ {ℓ} {A : Type ℓ} where
  -- The moves of insert, in a block with a free cell behind the units.
  insert_cells :
      {r : Ulist A} (x : A) (xs ys : List A) (i n k : ℕ)
      → Holds r (xs ++ ys)
      → r.start + r.num < r.anum
      → i ≡ r.start + length xs
      → n ≡ length ys
      → k ≡ r.num + 1
      → Holds
          (record r { array = blit i (some x ∷ []) (memmove (i + 1) i n r.array); num = k })
          (xs ++ (x ∷ ys))
  unfolding memmove
  insert_cells {r} x xs ys i n k h room hi hn hk =
      let c = cut xs ys h in
      let m = map {B = Option A} some ys in
      let hm : length m ≡ length ys = length-map some ys in
      let hl : r.num ≡ length xs + length ys = omega (arith, h.num_is, length-append xs ys) in
      let (y, q, rest) =
        nonempty_split (m ++ c.back) (omega (arith, length-append m c.back, hm, c.back_is)) in
      let hq : suc (length q) ≡ length m + length c.back =
        sym (ap (length {A = Option A}) rest) ∙ length-append m c.back in
      let hf : length c.front ≡ i = omega (arith, c.front_is) in
      Holds-of-cut xs (x ∷ ys) c.cut_pre c.front (drop (length m) q)
        (ap (λ t. blit i (some x ∷ []) (blit (i + 1) (slice i n t) t)) c.splits
          ∙ ap (λ t. blit i (some x ∷ []) (blit (i + 1) t (c.front ++ (m ++ c.back))))
              (slice_split i n c.front m c.back hf (omega arith))
          ∙ ap (λ t. blit i (some x ∷ []) (blit (i + 1) m (c.front ++ t))) rest
          ∙ blit_gap i (some x) y c.front m q hf)
        c.front_splits c.pre_is (omega arith) (omega (arith, length-drop (length m) q, c.back_is))
        h.small

  -- The write of push, in a block with a free cell behind the units.
  push_cells :
      {r : Ulist A} (x : A) (xs : List A) (i k : ℕ)
      → Holds r xs
      → r.start + r.num < r.anum
      → i ≡ r.start + r.num
      → k ≡ r.num + 1
      → Holds (record r { array = blit i (some x ∷ []) r.array; num = k }) (xs ++ (x ∷ []))
  push_cells {r} x xs i k h room hi hk =
      let m = map {B = Option A} some xs in
      let hf : length (h.pre ++ m) ≡ i =
        omega
          (arith, length-append h.pre m, length-map {B = Option A} some xs, h.start_is, h.num_is) in
      Holds-of-cut xs (x ∷ []) h.pre (h.pre ++ m) (drop 1 h.post)
        (ap (blit i (some x ∷ [])) (h.splits ∙ sym (append_assoc h.pre m h.post))
          ∙ blit_at i (some x ∷ []) (h.pre ++ m) h.post hf)
        refl h.start_is (omega (arith, h.num_is))
        (omega (arith, length-drop 1 h.post, Holds-bounds h)) h.small

  -- If fewer than 2 ^ 31 cells are allocated, a push appends the unit.
  pub push-Holds :
      {l : Ulist A} {xs : List A} (x : A)
      → Holds l xs
      → l.anum < 2 ^ 31
      → Holds (push l x) (xs ++ (x ∷ []))
  unfolding push
  push-Holds {l} {xs} x h fits =
      let r = reserve-Reserved h fits in
      push_cells x xs _ _ r.holds r.room
        (omega (arith, r.same_start, r.same_num, Holds-bounds h, h.small))
        (omega (arith, r.room, r.holds.small))

  insert-Holds :
      {l : Ulist A} (idx : ℕ) (x : A) (xs ys : List A)
      → Holds l (xs ++ ys)
      → l.anum < 2 ^ 31
      → length xs ≡ idx
      → Holds (insert l idx x) (xs ++ (x ∷ ys))
  unfolding insert
  insert-Holds {l} idx x xs ys h fits e =
      let r = reserve-Reserved h fits in
      let hl : l.num ≡ length xs + length ys = omega (arith, h.num_is, length-append xs ys) in
      let inside : ltb l.num idx ≡ false = ground arith in
      let i = u32 (idx + l.start) in
      let hi : i ≡ l.start + idx =
        omega (arith, r.same_start, r.same_num, Holds-bounds h, h.small) in
      rw inside (
        insert_cells x xs ys i ((reserve l).start + (reserve l).num - i) _ r.holds r.room
          (omega (arith, r.same_start)) (omega (arith, r.same_start, r.same_num))
          (omega (arith, r.room, r.holds.small)))

  insert_out : (l : Ulist A) (idx : ℕ) (x : A) → ltb l.num idx ≡ true → insert l idx x ≡ l
  unfolding insert
  insert_out l idx x out = rw out

  -- If fewer than 2 ^ 31 cells are allocated, an insert puts the unit at its index, and a unit out of
  -- range is not inserted.
  pub insert_refines :
      {l : Ulist A} {xs : List A} (idx : ℕ) (x : A)
      → Holds l xs
      → l.anum < 2 ^ 31
      → Holds (insert l idx x) (insert_at idx x xs)
  unfolding insert_at
  insert_refines {l} {xs} idx x h fits = elim (Bool-cases (ltb (length xs) idx)) [
    | inl out ↦ rw (out, insert_out l idx x (ground arith)) h
    | inr inside ↦ rw inside (
        insert-Holds idx x (take idx xs) (drop idx xs) (rw take-append-drop h) fits
          (length-take idx xs (ground arith)))
  ]
