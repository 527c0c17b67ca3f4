-- ===== src/Xstr/Ends.antt =====
-- xstr.c: what is taken off the ends.
use autark.Prelude.{
  ℕ, zero, suc, ◌-◌, ◌≤◌, ◌≡◌, refl, sym, ap, ◌∙◌, inl, inr, false, some, [], ◌∷◌, ◌++◌,
  append_assoc, map-append, arith, length, take, drop, take-append-drop, length-take, length-drop,
  take_all, drop-nil, slice, blit, memmove, slice_split, blit_at, length-blit, Bytes, ltb,
  if◌then◌else◌, Bool-cases, suc-ne-zero,
}
use autark.Xstr.{Xstr, cells_of, terminate, xstr_shift, xstr_pop, xstr_clear}
use autark.Xstr.Holds.{Holds, Holds-bounds, length-cells_of, terminate-Holds}

cells_of-split : (n : ℕ) (s : Bytes) → cells_of s ≡ cells_of (take n s) ++ cells_of (drop n s)
cells_of-split n s =
    ap cells_of (sym (take-append-drop n s)) ∙ map-append some (take n s) (drop n s)

pop_cells :
    {x : Xstr} {s : Bytes} (k : ℕ) → Holds x s → k ≤ x.size → Holds (terminate k x) (take k s)
pop_cells {x} {s} k h inside =
    terminate-Holds x (take k s) k (cells_of (drop k s) ++ (some 0 ∷ h.post))
      (h.splits
        ∙ ap (λ t. t ++ (some 0 ∷ h.post)) (cells_of-split k s)
        ∙ append_assoc (cells_of (take k s)) (cells_of (drop k s)) (some 0 ∷ h.post))
      (length-take k s (omega (arith, h.size_is))) (omega (arith, Holds-bounds h)) h.asize_is
      h.small

-- xstr_pop drops that many bytes at the end, or all bytes if there are no more.
pub xstr_pop-Holds :
    {x : Xstr} {s : Bytes} (n : ℕ) → Holds x s → Holds (xstr_pop x n) (take (length s - n) s)
unfolding xstr_pop
xstr_pop-Holds {x} {s} zero h = rw (take_all (length s - 0) s (omega arith)) h
xstr_pop-Holds {x} {s} (suc n) h =
    let k = if ltb x.size (suc n) then x.size else suc n in
    let e : x.size - k ≡ length s - suc n = ground (arith, h.size_is) in
    rw (suc-ne-zero n, ← e) (pop_cells (x.size - k) h (omega arith))

-- xstr_clear drops all bytes.
pub xstr_clear-Holds : {x : Xstr} {s : Bytes} → Holds x s → Holds (xstr_clear x) []
unfolding xstr_clear
xstr_clear-Holds h = pop_cells 0 h (omega arith)

shift_cells :
    {x : Xstr} {s : Bytes} (k : ℕ)
    → Holds x s
    → k ≤ x.size
    → Holds (terminate (x.size - k) (record x { ptr = memmove 0 k (x.size - k) x.ptr })) (drop k s)
unfolding memmove
shift_cells {x} {s} k h inside =
    let a = cells_of (take k s) in
    let b = cells_of (drop k s) in
    let n = x.size - k in
    let hb : length b ≡ n =
      length-cells_of (drop k s) ∙ length-drop k s ∙ omega (arith, h.size_is) in
    let ha : length a ≡ k =
      length-cells_of (take k s) ∙ length-take k s (omega (arith, h.size_is)) in
    let cut : x.ptr ≡ a ++ (b ++ (some 0 ∷ h.post)) =
      h.splits
      ∙ ap (λ t. t ++ (some 0 ∷ h.post)) (cells_of-split k s)
      ∙ append_assoc a b (some 0 ∷ h.post) in
    let moved : slice k n x.ptr ≡ b =
      ap (slice k n) cut ∙ slice_split k n a b (some 0 ∷ h.post) ha hb in
    terminate-Holds _ (drop k s) n (drop (length b) x.ptr)
      (ap (λ t. blit 0 t x.ptr) moved ∙ blit_at 0 b [] x.ptr refl)
      (length-drop k s ∙ omega (arith, h.size_is)) (omega (arith, Holds-bounds h))
      (length-blit 0 (slice k n x.ptr) x.ptr
          (rw moved (omega (arith, hb, h.asize_is, Holds-bounds h)))
        ∙ h.asize_is)
      h.small

drop_all : (n : ℕ) (s : Bytes) → length s ≤ n → drop n s ≡ []
drop_all n [] h = drop-nil n
drop_all zero (c ∷ s) h = absurd (omega arith)
drop_all (suc n) (c ∷ s) h = drop_all n s (omega arith)

-- xstr_shift drops that many bytes at the front, or all bytes if there are no more.
pub xstr_shift-Holds :
    {x : Xstr} {s : Bytes} (n : ℕ) → Holds x s → Holds (xstr_shift x n) (drop n s)
unfolding xstr_shift
xstr_shift-Holds {x} {s} zero h = h
xstr_shift-Holds {x} {s} (suc n) h = elim (Bool-cases (ltb (suc n) x.size)) [
  | inl less ↦
      let e : (if ltb x.size (suc n) then x.size else suc n) ≡ suc n = ground arith in
      rw (suc-ne-zero n, e, less) (shift_cells (suc n) h (ground arith))
  | inr all ↦
      let e : (if ltb x.size (suc n) then x.size else suc n) ≡ x.size = ground arith in
      let same : ltb x.size x.size ≡ false = ground arith in
      let gone : drop (suc n) s ≡ [] = drop_all (suc n) s (ground (arith, h.size_is)) in
      let none_left : x.size - x.size ≡ 0 = omega arith in
      rw (suc-ne-zero n, e, same, gone, none_left) (pop_cells 0 h (omega arith))
]
