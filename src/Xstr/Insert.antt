-- ===== src/Xstr/Insert.antt =====
-- xstr.c: what is put in front of the text or inside it.
use mathlib.Core.Path.{subst}
use autark.Prelude.{
  ℕ, ◌+◌, ◌-◌, ◌%◌, ◌^◌, ◌≤◌, ◌<◌, ◌≡◌, refl, sym, ap, ◌∙◌, inl, inr, true, false, Option, some,
  List, [], ◌∷◌, ◌++◌, append_assoc, map-append, arith, length, take, drop, length-append,
  take-append-drop, length-take, length-drop, take_all, slice, blit, memmove, slice_split,
  blit_split, blit_at, length-blit, Bytes, ltb, ◌==◌, if◌then◌else◌, ==_iff, Bool-cases,
  suc-ne-zero,
}
use autark.Xstr.{u64, Xstr, cells_of, reserve_size, terminate, xstr_unshift, xstr_insert}
use autark.Xstr.Holds.{Holds, Holds-bounds, length-cells_of, reserve_size-Reserved, terminate-Holds}

-- The cells of the text moved up by `n`, behind `n` cells of what was there.
moved_up :
    {x : Xstr} {s : Bytes} (n : ℕ)
    → Holds x s
    → x.size + n + 1 ≤ x.asize
    → (a r : List (Option ℕ)) × ((if x.size == 0 then x.ptr else memmove n 0 x.size x.ptr)
        ≡ a ++ (cells_of s ++ r))
      × (length a ≡ n)
      × (length (a ++ (cells_of s ++ r)) ≡ x.asize)
unfolding memmove
moved_up {x} {s = []} n h room = (
  take n x.ptr,
  drop n x.ptr,
  rw ((==_iff x.size 0).1 (omega (arith, h.size_is))) (sym (take-append-drop n x.ptr)),
  length-take n x.ptr (omega (arith, h.asize_is)),
  ap (length {A = Option ℕ}) (take-append-drop n x.ptr) ∙ h.asize_is,
)
moved_up {x} {s = c ∷ s} n h room =
    let m = cells_of (c ∷ s) in
    let some_left : (x.size == 0) ≡ false = ground (arith, h.size_is) in
    let text : slice 0 x.size x.ptr ≡ m =
      ap (slice 0 x.size) h.splits
      ∙ slice_split 0 x.size [] m (some 0 ∷ h.post) refl (length-cells_of (c ∷ s) ∙ h.size_is) in
    (
      take n x.ptr,
      drop (n + length m) x.ptr,
      rw some_left (ap (λ t. blit n t x.ptr) text ∙ unfold blit in refl),
      length-take n x.ptr (omega (arith, h.asize_is)),
      unfold blit in
          (length-blit n m x.ptr (omega (arith, h.asize_is, length-cells_of (c ∷ s), h.size_is))
            ∙ h.asize_is),
    )

unshift_cells :
    {x : Xstr} {s : Bytes} (buf : Bytes)
    → Holds x s
    → x.size + length buf + 1 ≤ x.asize
    → Holds
        (terminate (x.size + length buf) (record x {
          ptr =
              blit 0
                (cells_of buf)
                (if x.size == 0 then x.ptr else memmove (length buf) 0 x.size x.ptr);
        }))
        (buf ++ s)
unshift_cells {x} {s} buf h room =
    let (a, r, e, ha, len) = moved_up (length buf) h room in
    let b = cells_of buf in
    let written : blit 0 b (a ++ (cells_of s ++ r)) ≡ b ++ (cells_of s ++ r) =
      blit_split 0 b [] a (cells_of s ++ r) refl (ha ∙ sym (length-cells_of buf)) in
    terminate-Holds _ (buf ++ s) (x.size + length buf) r
      (ap (blit 0 b) e
        ∙ written
        ∙ sym (append_assoc b (cells_of s) r)
        ∙ ap (λ t. t ++ r) (sym (map-append some buf s)))
      (length-append buf s ∙ omega (arith, h.size_is)) (omega arith)
      (ap (λ t. length (blit 0 b t)) e
        ∙ length-blit 0 b (a ++ (cells_of s ++ r)) (omega (arith, len, length-cells_of buf))
        ∙ len)
      h.small

-- xstr_unshift puts the bytes in front, if the sizes stay below 2 ^ 32, where the function computes
-- them in an `unsigned`.
pub xstr_unshift-Holds :
    {x : Xstr} {s : Bytes} (buf : Bytes)
    → Holds x s
    → x.asize < 2 ^ 63
    → x.size + length buf + 1 < 2 ^ 32
    → Holds (xstr_unshift x buf) (buf ++ s)
unfolding xstr_unshift
xstr_unshift-Holds {x} {s} buf h small fits =
    let r = reserve_size-Reserved ((x.size + length buf + 1) % 2 ^ 32) h small (omega arith) in
    unshift_cells buf r.holds (omega (arith, r.room, r.same_size))

-- The bytes `buf` put in the text before its byte `pos`.
abbrev pub insert_bytes : ℕ → Bytes → Bytes → Bytes
insert_bytes pos buf s = if ltb (length s) pos then s else take pos s ++ (buf ++ drop pos s)

-- The cells `d` behind `a` moved up by the length of `b`, and `b` written in the gap.
gap_filled :
    (pos n : ℕ) (a b d p : List (Option ℕ))
    → length a ≡ pos
    → length b ≡ n
    → n ≤ length p
    → blit pos b (blit (pos + n) d (a ++ (d ++ p)))
      ≡ a ++ (b ++ (d ++ drop (length d) (drop n (d ++ p))))
gap_filled pos n a b d p ha hb room =
    let t = d ++ p in
    let ht : length (take n t) ≡ n = length-take n t (omega (arith, length-append d p)) in
    ap (blit pos b) (
      ap (λ u. blit (pos + n) d (a ++ u)) (sym (take-append-drop n t))
      ∙ ap (blit (pos + n) d) (sym (append_assoc a (take n t) (drop n t)))
      ∙ blit_at (pos + n) d (a ++ take n t) (drop n t) (omega (arith, length-append a (take n t)))
      ∙ append_assoc a (take n t) (d ++ drop (length d) (drop n t)))
    ∙ blit_split pos b a (take n t) (d ++ drop (length d) (drop n t)) ha (ht ∙ sym hb)

map_two : (s b t : Bytes) → cells_of (s ++ (b ++ t)) ≡ cells_of s ++ (cells_of b ++ cells_of t)
map_two s b t = map-append some s (b ++ t) ∙ ap (λ u. cells_of s ++ u) (map-append some b t)

insert_cells :
    {x : Xstr} (buf s t : Bytes) (pos k : ℕ)
    → Holds x (s ++ t)
    → x.size + length buf + 1 ≤ x.asize
    → length s ≡ pos
    → k ≡ x.size + length buf
    → Holds
        (record x {
          ptr = blit pos (cells_of buf) (memmove (pos + length buf) pos (x.size - pos + 1) x.ptr);
          size = k;
        })
        (s ++ (buf ++ t))
unfolding memmove
insert_cells {x} buf s t pos k h room hs hk =
    let a = cells_of s in
    let b = cells_of buf in
    let d = cells_of t ++ (some 0 ∷ []) in
    let n = length buf in
    let size_of : x.size ≡ length s + length t = sym h.size_is ∙ length-append s t in
    let hd : length d ≡ x.size - pos + 1 =
      omega (arith, length-append (cells_of t) (some 0 ∷ []), length-cells_of t) in
    let ha : length a ≡ pos = length-cells_of s ∙ hs in
    let cut : x.ptr ≡ a ++ (d ++ h.post) =
      h.splits
      ∙ ap (λ u. u ++ (some 0 ∷ h.post)) (map-append some s t)
      ∙ append_assoc a (cells_of t) (some 0 ∷ h.post)
      ∙ ap (λ u. a ++ u) (sym (append_assoc (cells_of t) (some 0 ∷ []) h.post)) in
    let q = drop (length d) (drop n (d ++ h.post)) in
    let moved : slice pos (x.size - pos + 1) x.ptr ≡ d =
      ap (slice pos (x.size - pos + 1)) cut ∙ slice_split pos (x.size - pos + 1) a d h.post ha hd in
    let filled =
      ap (blit pos b) (ap (λ u. blit (pos + n) u x.ptr) moved ∙ ap (blit (pos + n) d) cut)
      ∙ gap_filled pos n a b d h.post ha (length-cells_of buf) (omega (arith, Holds-bounds h)) in
    record {
      post = q;
      splits =
          filled
          ∙ ap (λ u. a ++ (b ++ u)) (append_assoc (cells_of t) (some 0 ∷ []) q)
          ∙ ap (λ u. a ++ u) (sym (append_assoc b (cells_of t) (some 0 ∷ q)))
          ∙ sym (append_assoc a (b ++ cells_of t) (some 0 ∷ q))
          ∙ ap (λ u. u ++ (some 0 ∷ q)) (sym (map_two s buf t));
      size_is = length-append s (buf ++ t) ∙ omega (arith, length-append buf t);
      asize_is =
          ap (length {A = Option ℕ}) filled
          ∙ omega (
            arith,
            length-append a (b ++ (d ++ q)),
            length-append b (d ++ q),
            length-append d q,
            length-drop (length d) (drop n (d ++ h.post)),
            length-drop n (d ++ h.post),
            length-append d h.post,
            length-cells_of buf,
            Holds-bounds h,
          );
      small = h.small;
    }

inserted :
    {x : Xstr} {s : Bytes} (pos : ℕ) (buf : Bytes)
    → Holds x s
    → x.asize < 2 ^ 63
    → length buf < 2 ^ 32
    → x.size + length buf + 1 < 2 ^ 64
    → pos ≤ length s
    → Holds (xstr_insert x pos buf) (take pos s ++ (buf ++ drop pos s))
unfolding xstr_insert
inserted {x} {s} pos [] h small short fits inside =
    let inside' : ltb x.size pos ≡ false = ground (arith, h.size_is) in
    rw (inside', take-append-drop pos s) h
inserted {x} {s} pos (c ∷ b) h small short fits inside =
    let inside' : ltb x.size pos ≡ false = ground (arith, h.size_is) in
    let n = length (c ∷ b) in
    let all : n % 2 ^ 32 ≡ n = omega arith in
    let r = reserve_size-Reserved (u64 (x.size + n + 1)) h small (omega arith) in
    let h' =
      subst (Holds (reserve_size x (u64 (x.size + n + 1)))) (sym (take-append-drop pos s))
        r.holds in
    rw (inside', all, take_all (length b) b (omega arith), suc-ne-zero (length b))
      (insert_cells (c ∷ b) (take pos s) (drop pos s) pos _ h' (omega (arith, r.room, r.same_size))
        (length-take pos s inside) refl)

-- xstr_insert puts the bytes before the byte `pos`, and changes nothing if `pos` is behind the text,
-- if the text added is below 2 ^ 32 and the sizes do not overflow.
pub xstr_insert-Holds :
    {x : Xstr} {s : Bytes} (pos : ℕ) (buf : Bytes)
    → Holds x s
    → x.asize < 2 ^ 63
    → length buf < 2 ^ 32
    → x.size + length buf + 1 < 2 ^ 64
    → Holds (xstr_insert x pos buf) (insert_bytes pos buf s)
unfolding xstr_insert
xstr_insert-Holds {x} {s} pos buf h small short fits = elim (Bool-cases (ltb (length s) pos)) [
  | inl out ↦ let out' : ltb x.size pos ≡ true = ground (arith, h.size_is) in rw (out, out') h
  | inr inside ↦ rw inside (inserted pos buf h small short fits (ground arith))
]
