-- ===== src/Xstr/Append.antt =====
-- xstr.c: what is added at the end.
use autark.Prelude.{
  ℕ, ◌+◌, ◌^◌, ◌≤◌, ◌<◌, ◌≡◌, refl, sym, ap, ◌∙◌, Option, none, some, [], ◌∷◌, ◌++◌, append_assoc,
  map-append, arith, length, drop, replicate, length-append, length-replicate, blit, blit_at,
  length-blit, Bytes, ◌==◌, if◌then◌else◌,
}
use autark.Xstr.{u64, Xstr, cells_of, terminate, xstr_create, xstr_cat2}
use autark.Xstr.Holds.{Holds, length-cells_of, reserve_size-Reserved, terminate-Holds}

-- A new string is empty, for a first size below 2 ^ 64.
pub xstr_create-Holds : (siz : ℕ) → siz < 2 ^ 64 → Holds (xstr_create siz) []
unfolding xstr_create blit
xstr_create-Holds siz h =
    let n = if siz == 0 then 16 else siz in
    record {
      post = drop 1 (replicate n none);
      splits = refl;
      size_is = refl;
      asize_is =
          length-blit 0 (some 0 ∷ []) (replicate n none)
            (ground (arith, length-replicate {A = Option ℕ} n none))
          ∙ length-replicate n none;
      small = ground arith;
    }

cat_cells :
    {x : Xstr} {s : Bytes} (buf : Bytes)
    → Holds x s
    → x.size + length buf + 1 ≤ x.asize
    → Holds
        (terminate (x.size + length buf) (record x { ptr = blit x.size (cells_of buf) x.ptr }))
        (s ++ buf)
cat_cells {x} {s} buf h room =
    let b = cells_of buf in
    let size_of : length (cells_of s) ≡ x.size = length-cells_of s ∙ h.size_is in
    terminate-Holds _ (s ++ buf) (x.size + length buf) (drop (length b) (some 0 ∷ h.post))
      (ap (blit x.size b) h.splits
        ∙ blit_at x.size b (cells_of s) (some 0 ∷ h.post) size_of
        ∙ sym (append_assoc (cells_of s) b (drop (length b) (some 0 ∷ h.post)))
        ∙ ap (λ t. t ++ drop (length b) (some 0 ∷ h.post)) (sym (map-append some s buf)))
      (length-append s buf ∙ omega (arith, h.size_is)) (omega arith)
      (length-blit x.size b x.ptr (omega (arith, length-cells_of buf, h.asize_is)) ∙ h.asize_is)
      h.small

-- xstr_cat2 appends the bytes, if the buffer is below 2 ^ 63 and the sizes do not overflow.
pub xstr_cat2-Holds :
    {x : Xstr} {s : Bytes} (buf : Bytes)
    → Holds x s
    → x.asize < 2 ^ 63
    → x.size + length buf + 1 < 2 ^ 64
    → Holds (xstr_cat2 x buf) (s ++ buf)
unfolding xstr_cat2
xstr_cat2-Holds {x} {s} buf h small fits =
    let r = reserve_size-Reserved (u64 (x.size + length buf + 1)) h small (omega arith) in
    cat_cells buf r.holds (omega (arith, r.room, r.same_size))
