-- ===== src/Ulist/Unshift.antt =====
-- ulist.c: unshift, which makes the gap in front of the units.
use autark.Prelude.{
  ℕ, suc, ◌+◌, ◌-◌, ◌^◌, ◌<◌, ◌≡◌, refl, sym, ap, ◌∙◌, inl, inr, Option, some, List, [], ◌∷◌, ◌++◌,
  map, append_assoc, arith, length, take, drop, length-append, take-append-drop, length-take,
  length-drop, length-map, slice, blit, memmove, slice_split, blit_split, leb, ◌==◌, ==_iff,
  Bool-cases,
}
use autark.Ulist.{Ulist, u32, open_gap, unshift}
use autark.Ulist.Grow.{grow-Holds}
use autark.Ulist.Holds.{Holds, Holds-bounds}

module _ {ℓ} {A : Type ℓ} where
  -- The units at the end of the block.
  gap_cells :
      {l : Ulist A} {xs : List A} (s : ℕ)
      → Holds l xs
      → l.start ≡ 0
      → s ≡ l.anum - l.num
      → Holds (record l { start = s; array = memmove s 0 l.num l.array }) xs
  unfolding memmove blit
  gap_cells {l} {xs} s h z e =
      let m = map {B = Option A} some xs in
      let hm : length m ≡ l.num = length-map some xs ∙ h.num_is in
      let moved : slice 0 l.num l.array ≡ m =
        ap (slice 0 l.num) h.splits
        ∙ slice_split 0 l.num h.pre m h.post (omega (arith, h.start_is)) hm in
      let hs : length (take s l.array) ≡ s =
        length-take s l.array (omega (arith, Holds-bounds h, h.anum_is)) in
      record {
        pre = take s l.array;
        post = drop (s + length m) l.array;
        splits = ap (λ t. take s l.array ++ (t ++ drop (s + length t) l.array)) moved;
        start_is = hs;
        num_is = h.num_is;
        anum_is =
            ap (λ t. length (take s l.array ++ (t ++ drop (s + length t) l.array))) moved
            ∙ omega (
              arith,
              length-append (take s l.array) (m ++ drop (s + length m) l.array),
              length-append m (drop (s + length m) l.array),
              length-drop (s + length m) l.array,
              hs,
              hm,
              h.anum_is,
              Holds-bounds h,
            );
        small = h.small;
      }

  unshift_cells :
      {l : Ulist A} (x : A) (xs : List A) (i k : ℕ)
      → Holds l xs
      → l.start ≡ suc i
      → k ≡ l.num + 1
      → Holds (record l { array = blit i (some x ∷ []) l.array; start = i; num = k }) (x ∷ xs)
  unshift_cells {l} x xs i k h hs hk =
      let m = map {B = Option A} some xs in
      let fore = take i h.pre in
      let hf : length fore ≡ i = length-take i h.pre (omega (arith, h.start_is)) in
      let gone = drop i h.pre in
      let hg : length gone ≡ 1 = omega (arith, length-drop i h.pre, h.start_is) in
      let cells : blit i (some x ∷ []) l.array ≡ fore ++ (some x ∷ (m ++ h.post)) =
        ap (blit i (some x ∷ [])) (
          h.splits
          ∙ ap (λ t. t ++ (m ++ h.post)) (sym (take-append-drop i h.pre))
          ∙ append_assoc fore gone (m ++ h.post))
        ∙ blit_split i (some x ∷ []) fore gone (m ++ h.post) hf hg in
      record {
        pre = fore;
        post = h.post;
        splits = cells;
        start_is = hf;
        num_is = omega (arith, h.num_is);
        anum_is = omega (
          arith,
          ap (length {A = Option A}) cells,
          length-append fore (some x ∷ (m ++ h.post)),
          length-append m h.post,
          length-map {B = Option A} some xs,
          hf,
          h.num_is,
          Holds-bounds h,
        );
        small = h.small;
      }

  -- What open_gap leaves: the same units, with a cell free in front of them.
  record Opened (xs : List A) (num : ℕ) (r : Ulist A) : Type ℓ where
    holds : Holds r xs
    same_num : r.num ≡ num
    gap : 0 < r.start

  open_gap-Opened :
      {l : Ulist A} {xs : List A}
      → Holds l xs
      → l.start ≡ 0
      → l.anum < 2 ^ 31
      → Opened xs l.num (open_gap l)
  unfolding open_gap
  open_gap-Opened {l} {xs} h z fits = elim (Bool-cases (leb l.anum l.num)) [
    | inl full ↦ rw full (record {
      holds = gap_cells (u32 (l.anum + l.num + 1) - l.num) (grow-Holds h fits) z refl;
      same_num = refl;
      gap = ground (arith, Holds-bounds h);
    })
    | inr free ↦ rw free (record {
      holds = gap_cells (l.anum - l.num) h z refl;
      same_num = refl;
      gap = ground arith;
    })
  ]

  -- If fewer than 2 ^ 31 cells are allocated, unshift puts the unit in front of the others.
  pub unshift_refines :
      {l : Ulist A} {xs : List A} (x : A)
      → Holds l xs
      → l.anum < 2 ^ 31
      → Holds (unshift l x) (x ∷ xs)
  unfolding unshift
  unshift_refines {l} {xs} x h fits = elim (Bool-cases (l.start == 0)) [
    | inl front ↦
        let z : l.start ≡ 0 = (==_iff l.start 0).0 front in
        let o = open_gap-Opened h z fits in
        rw front (
          unshift_cells x xs _ _ o.holds (omega (arith, o.gap))
            (omega (arith, o.same_num, Holds-bounds h)))
    | inr gap ↦ rw gap (unshift_cells x xs _ _ h (ground arith) (omega (arith, Holds-bounds h)))
  ]
