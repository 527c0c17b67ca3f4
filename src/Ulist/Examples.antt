-- ===== src/Ulist/Examples.antt =====
-- ulist.c: the theorems at concrete lists, and runs of the functions.
use mathlib.Core.Option
use autark.Prelude.{
  ℕ, ◌+◌, ◌≤◌, ◌≡◌, refl, none, some, List, [], ◌∷◌, arith, length, get_elem?, blit, ◌==◌,
}
use autark.Ulist.{Ulist, init, get, set, push, pop, insert, remove, unshift, shift, find, remove_by}
use autark.Ulist.Holds.{Holds}
use autark.Ulist.History.{
  Call, push_it, pop_it, unshift_it, shift_it, insert_it, set_it, remove_it, calls, effects,
  largest, calls-get,
}

-- Two units with a gap before and behind them.
abbrev gapped : Ulist ℕ
gapped = record { array = none ∷ some 7 ∷ some 8 ∷ none ∷ []; start = 1; num = 2; anum = 4 }

-- Two units in a full block.
abbrev full : Ulist ℕ
full = record { array = some 7 ∷ some 8 ∷ []; start = 0; num = 2; anum = 2 }

full-Holds : Holds full (7 ∷ 8 ∷ [])
full-Holds = record {
  pre = [];
  post = [];
  splits = refl;
  start_is = refl;
  num_is = refl;
  anum_is = refl;
  small = omega arith;
}

push_grows :
    push full 9
    ≡ record { array = some 7 ∷ some 8 ∷ some 9 ∷ none ∷ none ∷ []; start = 0; num = 3; anum = 5 }
unfolding push blit
push_grows = refl

unshift_opens_a_gap : unshift full 9 ≡ record {
  array = some 7 ∷ some 8 ∷ some 9 ∷ some 7 ∷ some 8 ∷ [];
  start = 2;
  num = 3;
  anum = 5;
}
unfolding unshift
unshift_opens_a_gap = refl

-- The two searches disagree on a list with a gap.
searches_differ : (find ◌==◌ gapped 8 ≡ some 1) × ((remove_by ◌==◌ gapped 8).0 ≡ some 2)
unfolding find remove_by
searches_differ = (refl, refl)

-- The list grows, opens a gap and gives it up again.
abbrev eight_calls : List (Call ℕ)
eight_calls =
    push_it 7
    ∷ push_it 8
    ∷ unshift_it 6
    ∷ insert_it 1 9
    ∷ set_it 0 5
    ∷ shift_it
    ∷ remove_it 1
    ∷ pop_it
    ∷ []

units_left : effects eight_calls [] ≡ 9 ∷ []
unfolding effects
units_left = refl

calls-get_example :
    ((i : ℕ)
      → get (calls eight_calls (init 1)) i ≡ Option.map some (get_elem? (effects eight_calls []) i))
    × ((calls eight_calls (init 1)).num ≡ length (effects eight_calls []))
    × ((calls eight_calls (init 1)).start + (calls eight_calls (init 1)).num
        ≤ (calls eight_calls (init 1)).anum)
    × (length (calls eight_calls (init 1)).array ≡ (calls eight_calls (init 1)).anum)
unfolding largest init push pop unshift shift insert set remove
calls-get_example = calls-get eight_calls 1 (omega arith) (omega arith)
