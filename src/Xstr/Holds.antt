-- ===== src/Xstr/Holds.antt =====
-- xstr.c: what a string holds, and the buffer made wider.
use autark.Prelude.{
  ℕ, zero, suc, ◌+◌, ◌-◌, ◌^◌, ◌≤◌, ◌<◌, ◌≡◌, refl, sym, ap, ◌∙◌, inl, inr, true, Option, some,
  List, [], ◌∷◌, ◌++◌, append_assoc, arith, length, drop, length-append, length-map, blit, realloc,
  length-realloc, realloc_keeps, blit_at, length-blit, Bytes, ltb, Bool-cases,
}
use autark.Xstr.{Xstr, cells_of, widen_once, widen, rounds, reserve_size, terminate}

-- The buffer is the text, its final zero and free cells; the sizes agree with it.
pub record Holds (x : Xstr) (s : Bytes) : Type 0 where
  pub post : List (Option ℕ)
  pub splits : x.ptr ≡ cells_of s ++ (some 0 ∷ post)
  pub size_is : length s ≡ x.size
  pub asize_is : length x.ptr ≡ x.asize
  pub small : x.asize < 2 ^ 64

pub length-cells_of : (s : Bytes) → length (cells_of s) ≡ length s
length-cells_of s = length-map some s

-- The text and its final zero fit in the buffer.
pub Holds-bounds : {x : Xstr} {s : Bytes} (h : Holds x s) → x.size + 1 + length h.post ≡ x.asize
Holds-bounds {x} {s} h = omega (
  arith,
  h.size_is,
  h.asize_is,
  ap (length {A = Option ℕ}) h.splits,
  length-append (cells_of s) (some 0 ∷ h.post),
  length-cells_of s,
)

widen_once_bounds :
    (asize nsize : ℕ)
    → asize < 2 ^ 63
    → nsize < 2 ^ 64
    → (nsize ≤ widen_once asize nsize)
      × (asize ≤ widen_once asize nsize)
      × (widen_once asize nsize < 2 ^ 64)
unfolding widen_once
widen_once_bounds asize nsize a n = ground arith

widen_stops : (fuel asize nsize : ℕ) → nsize ≤ asize → widen fuel asize nsize ≡ asize
unfolding widen
widen_stops zero asize nsize h = refl
widen_stops (suc fuel) asize nsize h = ground arith

-- One round of the loop is enough: behind it the test of the loop fails.
pub widen_once-widen :
    (fuel asize nsize : ℕ)
    → asize < 2 ^ 63
    → nsize < 2 ^ 64
    → asize < nsize
    → widen (suc fuel) asize nsize ≡ widen_once asize nsize
unfolding widen
widen_once-widen fuel asize nsize a n h =
    let stops =
      widen_stops fuel (widen_once asize nsize) nsize (widen_once_bounds asize nsize a n).0 in
    let less : ltb asize nsize ≡ true = ground arith in rw (less, stops) refl

-- What reserve_size leaves: the same text, and cells enough.
pub record Reserved (s : Bytes) (size nsize : ℕ) (r : Xstr) : Type 0 where
  pub holds : Holds r s
  pub same_size : r.size ≡ size
  pub room : nsize ≤ r.asize

pub reserve_size-Reserved :
    {x : Xstr} {s : Bytes} (nsize : ℕ)
    → Holds x s
    → x.asize < 2 ^ 63
    → nsize < 2 ^ 64
    → Reserved s x.size nsize (reserve_size x nsize)
unfolding reserve_size
reserve_size-Reserved {x} {s} nsize h a n = elim (Bool-cases (ltb x.asize nsize)) [
  | inl full ↦
      let (fits, grows, small) = widen_once_bounds x.asize nsize a n in
      let w : widen rounds x.asize nsize ≡ widen_once x.asize nsize =
        widen_once-widen 1 x.asize nsize a n (ground arith) in
      let m = widen_once x.asize nsize in
      let kept : length (cells_of s ++ (some 0 ∷ [])) ≤ m = omega (
        arith,
        length-append (cells_of s) (some 0 ∷ []),
        length-cells_of s,
        Holds-bounds h,
        h.size_is,
      ) in
      rw (full, w)
        (record {
          holds = record {
            post = realloc (m - length (cells_of s ++ (some 0 ∷ []))) h.post;
            splits =
                ap (realloc m) (h.splits ∙ sym (append_assoc (cells_of s) (some 0 ∷ []) h.post))
                ∙ realloc_keeps m (cells_of s ++ (some 0 ∷ [])) h.post kept
                ∙ append_assoc (cells_of s) (some 0 ∷ [])
                    (realloc (m - length (cells_of s ++ (some 0 ∷ []))) h.post);
            size_is = h.size_is;
            asize_is = length-realloc m x.ptr;
            small = small;
          };
          same_size = refl;
          room = fits;
        })
  | inr free ↦ rw free (record { holds = h; same_size = refl; room = ground arith })
]

-- A text written in front of free cells and ended.
pub terminate-Holds :
    (x : Xstr) (t : Bytes) (k : ℕ) (r : List (Option ℕ))
    → x.ptr ≡ cells_of t ++ r
    → length t ≡ k
    → k < x.asize
    → length x.ptr ≡ x.asize
    → x.asize < 2 ^ 64
    → Holds (terminate k x) t
unfolding terminate
terminate-Holds x t k r e ht room len small = record {
  post = drop 1 r;
  splits =
      ap (blit k (some 0 ∷ [])) e ∙ blit_at k (some 0 ∷ []) (cells_of t) r (length-cells_of t ∙ ht);
  size_is = ht;
  asize_is = length-blit k (some 0 ∷ []) x.ptr (omega arith) ∙ len;
  small = small;
}
