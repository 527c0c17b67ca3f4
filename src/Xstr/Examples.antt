-- ===== src/Xstr/Examples.antt =====
-- xstr.c: the theorems at a concrete string.
use autark.Prelude.{List, ◌+◌, ◌≤◌, ◌≡◌, take, length, refl, some, [], ◌∷◌, ◌++◌, arith, codes}
use autark.Xstr.{
  Xstr, cells_of, xstr_shift, xstr_pop, reserve_size, widen, widen_once, terminate, xstr_create,
  xstr_cat2, xstr_unshift, xstr_insert,
}
use autark.Xstr.Holds.{Holds}
use autark.Xstr.History.{Call, cat, unshift, insert, shift, pop, calls, effects, largest, calls-ptr}
use autark.Xstr.Insert.{xstr_unshift-Holds}

-- Two bytes in a full buffer.
abbrev ab : Xstr
ab = record { ptr = some b'a' ∷ some b'b' ∷ some 0 ∷ []; size = 2; asize = 3 }

ab-Holds : Holds ab (codes "ab")
ab-Holds = record { post = []; splits = refl; size_is = refl; asize_is = refl; small = omega arith }

xstr_unshift-Holds_example : Holds (xstr_unshift ab (codes "cd")) (codes "cd" ++ codes "ab")
xstr_unshift-Holds_example = xstr_unshift-Holds (codes "cd") ab-Holds (omega arith) (omega arith)

abbrev five_calls : List Call
five_calls =
    cat (codes "ark") ∷ unshift (codes "aut") ∷ insert 3 (codes "--") ∷ pop 1 ∷ shift 2 ∷ []

text_left : effects five_calls [] ≡ codes "t--ar"
unfolding effects
text_left = refl

calls-ptr_example :
    (take (length (effects five_calls []) + 1) (calls five_calls (xstr_create 2)).ptr
      ≡ cells_of (effects five_calls []) ++ (some 0 ∷ []))
    × ((calls five_calls (xstr_create 2)).size ≡ length (effects five_calls []))
    × ((calls five_calls (xstr_create 2)).size + 1 ≤ (calls five_calls (xstr_create 2)).asize)
    × (length (calls five_calls (xstr_create 2)).ptr ≡ (calls five_calls (xstr_create 2)).asize)
unfolding largest xstr_create xstr_cat2 xstr_unshift xstr_insert xstr_shift xstr_pop reserve_size
    widen widen_once terminate
calls-ptr_example = calls-ptr five_calls 2 (omega arith) (omega arith)
