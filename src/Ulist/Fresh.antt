-- ===== src/Ulist/Fresh.antt =====
-- ulist.c: init, clear, reset and clone.
use autark.Prelude.{
  ℕ, ◌^◌, ◌<◌, ◌≡◌, refl, ap, ◌∙◌, true, false, Option, none, some, List, [], ◌∷◌, ◌++◌, map, arith,
  length, drop, replicate, length-append, length-replicate, length-drop, length-map, slice, blit,
  slice_split, blit_at, ltb, ◌==◌, if◌then◌else◌,
}
use autark.Ulist.{Ulist, alloc_unit, init, clear, reset, clone}
use autark.Ulist.Holds.{Holds, Holds-bounds}

module _ {ℓ} {A : Type ℓ} where
  -- A new list of a length below 2 ^ 32 is empty.
  pub init-Holds : (n : ℕ) → n < 2 ^ 32 → Holds (init {A = A} n) []
  unfolding init
  init-Holds n h =
      let size = if n == 0 then alloc_unit else n in
      record {
        pre = [];
        post = replicate size none;
        splits = refl;
        start_is = refl;
        num_is = refl;
        anum_is = length-replicate {A = Option A} size none;
        small = ground arith;
      }

  pub clear-Holds : (l : Ulist A) → Holds (clear l) []
  unfolding clear
  clear-Holds l = init-Holds alloc_unit (omega arith)

  pub reset-Holds : {l : Ulist A} {xs : List A} → Holds l xs → Holds (reset l) []
  unfolding reset
  reset-Holds {l} h = record {
    pre = [];
    post = l.array;
    splits = refl;
    start_is = refl;
    num_is = refl;
    anum_is = h.anum_is;
    small = h.small;
  }

  -- A copy holds the same units in a block of its own, from its front on.
  pub clone_refines :
      {l : Ulist A} {xs : List A} → Holds l xs → Holds (clone l) xs × ((clone l).start ≡ 0)
  unfolding clone
  clone_refines {l} {xs = []} h =
      let none_left : (l.num == 0) ≡ true = ground (arith, h.num_is) in
      rw none_left (init-Holds l.anum h.small, unfold init in refl)
  clone_refines {l} {xs = x ∷ xs} h =
      let some_left : (l.num == 0) ≡ false = ground (arith, h.num_is) in
      let n = if ltb alloc_unit l.num then l.num else alloc_unit in
      let m = map {B = Option A} some (x ∷ xs) in
      let hm : length m ≡ l.num = length-map {B = Option A} some (x ∷ xs) ∙ h.num_is in
      let copied : blit 0 (slice l.start l.num l.array) (replicate {A = Option A} n none)
          ≡ m ++ drop (length m) (replicate n none) =
        ap (λ c. blit 0 (slice l.start l.num c) (replicate n none)) h.splits
        ∙ ap (λ c. blit 0 c (replicate n none))
            (slice_split l.start l.num h.pre m h.post h.start_is hm)
        ∙ blit_at 0 m [] (replicate n none) refl in
      rw some_left (
        record {
          pre = [];
          post = drop (length m) (replicate n none);
          splits = copied;
          start_is = refl;
          num_is = h.num_is;
          anum_is =
              ap (length {A = Option A}) copied
              ∙ ground (
                arith,
                length-append m (drop (length m) (replicate n none)),
                length-drop (length m) (replicate {A = Option A} n none),
                length-replicate {A = Option A} n none,
                hm,
              );
          small = ground (arith, Holds-bounds h, h.small);
        },
        refl,
      )
