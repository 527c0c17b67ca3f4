-- ===== src/Ulist/History.antt =====
-- ulist.c: any sequence of calls on a new list.
use mathlib.Core.Option
use autark.Prelude.{
  ℕ, ◌+◌, ◌^◌, ◌≤◌, ◌<◌, ◌≡◌, sym, some, List, [], ◌∷◌, ◌++◌, arith, length, get_elem?, ltb,
  if◌then◌else◌,
}
use autark.Ulist.{Ulist, init, clear, reset, get, set, push, pop, unshift, shift, insert, remove}
use autark.Ulist.Holds.{Holds, Holds-bounds}
use autark.Ulist.Access.{set_at, get_refines, set_refines}
use autark.Ulist.Fresh.{init-Holds, clear-Holds, reset-Holds}
use autark.Ulist.Refine.{insert_at, push-Holds, insert_refines}
use autark.Ulist.Remove.{remove_at, drop_last, tail, remove_refines, pop_refines, shift_refines}
use autark.Ulist.Unshift.{unshift_refines}

-- A call that changes a list.
pub data Call {ℓ} (A : Type ℓ) : Type ℓ where
  push_it : A → Call A
  pop_it : Call A
  unshift_it : A → Call A
  shift_it : Call A
  insert_it : ℕ → A → Call A
  set_it : ℕ → A → Call A
  remove_it : ℕ → Call A
  clear_it : Call A
  reset_it : Call A

module _ {ℓ} {A : Type ℓ} where
  unfoldable pub call : Call A → Ulist A → Ulist A
  call (push_it x) l = push l x
  call pop_it l = pop l
  call (unshift_it x) l = unshift l x
  call shift_it l = shift l
  call (insert_it i x) l = insert l i x
  call (set_it i x) l = set l i x
  call (remove_it i) l = remove l i
  call clear_it l = clear l
  call reset_it l = reset l

  -- The calls, the first in the list first.
  unfoldable pub calls : List (Call A) → Ulist A → Ulist A
  unfolding call
  calls [] l = l
  calls (c ∷ cs) l = calls cs (call c l)

  -- What a call does to the units.
  unfoldable pub effect : Call A → List A → List A
  unfolding insert_at set_at remove_at drop_last tail
  effect (push_it x) xs = xs ++ (x ∷ [])
  effect pop_it xs = drop_last xs
  effect (unshift_it x) xs = x ∷ xs
  effect shift_it xs = tail xs
  effect (insert_it i x) xs = insert_at i x xs
  effect (set_it i x) xs = set_at i x xs
  effect (remove_it i) xs = remove_at i xs
  effect clear_it xs = []
  effect reset_it xs = []

  unfoldable pub effects : List (Call A) → List A → List A
  unfolding effect
  effects [] xs = xs
  effects (c ∷ cs) xs = effects cs (effect c xs)

  -- The cells of the largest block that the calls find.
  unfoldable pub largest : List (Call A) → Ulist A → ℕ
  unfolding call
  largest [] l = 0
  largest (c ∷ cs) l = let rest = largest cs (call c l) in if ltb rest l.anum then l.anum else rest

  call-Holds :
      (c : Call A) (l : Ulist A) (xs : List A)
      → Holds l xs
      → l.anum < 2 ^ 31
      → Holds (call c l) (effect c xs)
  unfolding call effect
  call-Holds (push_it x) l xs h fits = push-Holds x h fits
  call-Holds pop_it l xs h fits = pop_refines xs h
  call-Holds (unshift_it x) l xs h fits = unshift_refines x h fits
  call-Holds shift_it l xs h fits = shift_refines xs h
  call-Holds (insert_it i x) l xs h fits = insert_refines i x h fits
  call-Holds (set_it i x) l xs h fits = set_refines i x h
  call-Holds (remove_it i) l xs h fits = remove_refines i h
  call-Holds clear_it l xs h fits = clear-Holds l
  call-Holds reset_it l xs h fits = reset-Holds h

  calls-Holds :
      (cs : List (Call A)) (l : Ulist A) (xs : List A)
      → Holds l xs
      → largest cs l < 2 ^ 31
      → Holds (calls cs l) (effects cs xs)
  unfolding calls effects largest
  calls-Holds [] l xs h fits = h
  calls-Holds (c ∷ cs) l xs h fits =
      calls-Holds cs (call c l) (effect c xs) (call-Holds c l xs h (ground (arith, fits)))
        (ground (arith, fits))

  -- After any calls on a new list, none of which finds a block of 2 ^ 31 cells or more, get shows
  -- the units that the calls have left, in their order, and none behind them; these lie inside the
  -- block, which has the size that the list says.
  pub calls-get :
      (cs : List (Call A)) (n : ℕ)
      → n < 2 ^ 32
      → largest cs (init n) < 2 ^ 31
      → ((i : ℕ) → get (calls cs (init n)) i ≡ Option.map some (get_elem? (effects cs []) i))
        × ((calls cs (init n)).num ≡ length (effects cs []))
        × ((calls cs (init n)).start + (calls cs (init n)).num ≤ (calls cs (init n)).anum)
        × (length (calls cs (init n)).array ≡ (calls cs (init n)).anum)
  calls-get cs n l fits =
      let h = calls-Holds cs (init n) [] (init-Holds n l) fits in
      (λ i. get_refines i h, sym h.num_is, omega (arith, Holds-bounds h), h.anum_is)
