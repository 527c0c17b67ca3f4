-- ===== src/Xstr/History.antt =====
-- xstr.c: any sequence of calls on a new string.
use autark.Prelude.{
  ℕ, ◌+◌, ◌-◌, ◌^◌, ◌≤◌, ◌<◌, ◌≡◌, sym, ap, ◌∙◌, some, List, [], ◌∷◌, ◌++◌, append_assoc, arith,
  length, take, drop, length-append, take-append, Bytes, ltb, if◌then◌else◌,
}
use autark.Xstr.{
  Xstr, cells_of, xstr_create, xstr_cat2, xstr_unshift, xstr_insert, xstr_shift, xstr_pop,
  xstr_clear,
}
use autark.Xstr.Holds.{Holds, Holds-bounds, length-cells_of}
use autark.Xstr.Append.{xstr_create-Holds, xstr_cat2-Holds}
use autark.Xstr.Ends.{xstr_pop-Holds, xstr_clear-Holds, xstr_shift-Holds}
use autark.Xstr.Insert.{insert_bytes, xstr_unshift-Holds, xstr_insert-Holds}

-- A call that changes a string.
pub data Call : Type 0 where
  cat : Bytes → Call
  unshift : Bytes → Call
  insert : ℕ → Bytes → Call
  shift : ℕ → Call
  pop : ℕ → Call
  clear : Call

unfoldable pub call : Call → Xstr → Xstr
call (cat buf) x = xstr_cat2 x buf
call (unshift buf) x = xstr_unshift x buf
call (insert pos buf) x = xstr_insert x pos buf
call (shift n) x = xstr_shift x n
call (pop n) x = xstr_pop x n
call clear x = xstr_clear x

-- The calls, the first in the list first.
unfoldable pub calls : List Call → Xstr → Xstr
unfolding call
calls [] x = x
calls (c ∷ cs) x = calls cs (call c x)

-- What a call does to the text.
unfoldable pub effect : Call → Bytes → Bytes
effect (cat buf) s = s ++ buf
effect (unshift buf) s = buf ++ s
effect (insert pos buf) s = insert_bytes pos buf s
effect (shift n) s = drop n s
effect (pop n) s = take (length s - n) s
effect clear s = []

unfoldable pub effects : List Call → Bytes → Bytes
unfolding effect
effects [] s = s
effects (c ∷ cs) s = effects cs (effect c s)

unfoldable pub added_length : Call → ℕ
added_length (cat buf) = length buf
added_length (unshift buf) = length buf
added_length (insert pos buf) = length buf
added_length (shift n) = 0
added_length (pop n) = 0
added_length clear = 0

-- The largest size that a call finds or asks for.
unfoldable pub largest : List Call → Xstr → ℕ
unfolding call added_length
largest [] x = 0
largest (c ∷ cs) x =
    let rest = largest cs (call c x) in
    let needed = x.asize + added_length c + 1 in if ltb rest needed then needed else rest

call-Holds :
    (c : Call) (x : Xstr) (s : Bytes)
    → Holds x s
    → x.asize + added_length c + 1 < 2 ^ 32
    → Holds (call c x) (effect c s)
unfolding call effect added_length
call-Holds (cat buf) x s h fits =
    xstr_cat2-Holds buf h (omega (arith, fits)) (omega (arith, fits, Holds-bounds h))
call-Holds (unshift buf) x s h fits =
    xstr_unshift-Holds buf h (omega (arith, fits)) (omega (arith, fits, Holds-bounds h))
call-Holds (insert pos buf) x s h fits =
    xstr_insert-Holds pos buf h (omega (arith, fits)) (omega (arith, fits))
      (omega (arith, fits, Holds-bounds h))
call-Holds (shift n) x s h fits = xstr_shift-Holds n h
call-Holds (pop n) x s h fits = xstr_pop-Holds n h
call-Holds clear x s h fits = xstr_clear-Holds h

calls-Holds :
    (cs : List Call) (x : Xstr) (s : Bytes)
    → Holds x s
    → largest cs x < 2 ^ 32
    → Holds (calls cs x) (effects cs s)
unfolding calls effects largest
calls-Holds [] x s h fits = h
calls-Holds (c ∷ cs) x s h fits =
    calls-Holds cs (call c x) (effect c s) (call-Holds c x s h (ground (arith, fits)))
      (ground (arith, fits))

-- After any calls on a new string, none of which finds or asks for 2 ^ 32 bytes or more, the buffer
-- begins with the text that the calls have left and its final zero, the size is the length of the
-- text, and both fit in the buffer, which has the size that the string says.
pub calls-ptr :
    (cs : List Call) (siz : ℕ)
    → siz < 2 ^ 64
    → largest cs (xstr_create siz) < 2 ^ 32
    → (take (length (effects cs []) + 1) (calls cs (xstr_create siz)).ptr
        ≡ cells_of (effects cs []) ++ (some 0 ∷ []))
      × ((calls cs (xstr_create siz)).size ≡ length (effects cs []))
      × ((calls cs (xstr_create siz)).size + 1 ≤ (calls cs (xstr_create siz)).asize)
      × (length (calls cs (xstr_create siz)).ptr ≡ (calls cs (xstr_create siz)).asize)
calls-ptr cs siz l fits =
    let h = calls-Holds cs (xstr_create siz) [] (xstr_create-Holds siz l) fits in
    let s = effects cs [] in
    let cells = cells_of s ++ (some 0 ∷ []) in
    (
      ap (take (length s + 1)) (h.splits ∙ sym (append_assoc (cells_of s) (some 0 ∷ []) h.post))
          ∙ take-append (length s + 1) cells h.post
              (length-append (cells_of s) (some 0 ∷ []) ∙ ap (λ n. n + 1) (length-cells_of s)),
      sym h.size_is,
      omega (arith, Holds-bounds h),
      h.asize_is,
    )
