-- ===== src/Ulist/Search.antt =====
-- ulist.c: find and remove_by.
use mathlib.Core.Option
use autark.Prelude.{
  ℕ, suc, ◌+◌, ◌-◌, ◌≡◌, refl, sym, ap, ◌∙◌, inl, inr, Bool, Option, none, some, List, [], ◌∷◌,
  ◌++◌, map, append_assoc, arith, length, length-append, get_elem?-append, Bool-cases,
}
use autark.Ulist.{Ulist, u32, find_from, find_cell, find}
use autark.Ulist.Holds.{Holds, Holds-bounds}
use autark.Ulist.Access.{index_of}

abbrev pub plus : ℕ → Option ℕ → Option ℕ
plus n none = none
plus n (some k) = some (n + k)

plus-suc : (n m : ℕ) (o : Option ℕ) → m ≡ n + 1 → plus m o ≡ plus n (Option.map suc o)
plus-suc n m none e = refl
plus-suc n m (some k) e = let h : m + k ≡ n + suc k = omega arith in ap (λ (t : ℕ). some t) h

module _ {ℓ} {A : Type ℓ} (eq : A → A → Bool) where
  find_from-index_of :
      (x : A) (pre : List (Option A)) (xs : List A) (post : List (Option A)) (i : ℕ)
      → length pre ≡ i
      → find_from eq x (pre ++ (map some xs ++ post)) (length xs) i ≡ plus i (index_of (eq x) xs)
  unfolding find_from index_of
  find_from-index_of x pre [] post i h = refl
  find_from-index_of x pre (y ∷ xs) post i h =
      let m = map {B = Option A} some xs in
      let here = get_elem?-append pre (some y) (m ++ post) i h in
      let later : find_from eq x (pre ++ (some y ∷ (m ++ post))) (length xs) (i + 1)
          ≡ plus i (Option.map suc (index_of (eq x) xs)) =
        ap (λ c. find_from eq x c (length xs) (i + 1))
          (sym (append_assoc pre (some y ∷ []) (m ++ post)))
        ∙ find_from-index_of x (pre ++ (some y ∷ [])) xs post (i + 1)
            (omega (arith, length-append pre (some y ∷ [])))
        ∙ plus-suc i (i + 1) (index_of (eq x) xs) refl in
      rw here (elim (Bool-cases (eq x y)) [
        | inl found ↦ rw found (let e : i ≡ i + 0 = omega arith in ap (λ (t : ℕ). some t) e)
        | inr other ↦ rw other later
      ])

  find_cell-index_of :
      {l : Ulist A} {xs : List A} (x : A)
      → Holds l xs
      → find_cell eq l x ≡ plus l.start (index_of (eq x) xs)
  unfolding find_cell
  find_cell-index_of {l} {xs} x h =
      let rounds : u32 (l.start + l.num) - l.start ≡ length xs =
        omega (arith, Holds-bounds h, h.small, h.num_is) in
      rw rounds (
        ap (λ c. find_from eq x c (length xs) l.start) h.splits
        ∙ find_from-index_of x h.pre xs h.post l.start h.start_is)

  -- find returns the index of the first unit equal to the given one.
  pub find_refines :
      {l : Ulist A} {xs : List A} (x : A) → Holds l xs → find eq l x ≡ index_of (eq x) xs
  unfolding find
  find_refines {l} {xs} x h = ground (arith, find_cell-index_of x h)
