-- ===== src/Ulist/Access.antt =====
-- ulist.c: reading, writing and searching the units, and the lists made from nothing or by a copy.
use mathlib.Core.Option
use autark.Prelude.{
  ℕ, zero, suc, ◌+◌, ◌≤◌, ◌<◌, ◌≡◌, refl, sym, ap, ◌∙◌, inl, inr, Bool, true, false, Option, none,
  some, List, [], ◌∷◌, ◌++◌, map, arith, length, get_elem?, length-append, get_elem?-add_append,
  get_elem?-prefix, get_elem?_out, length-map, get_elem?-map, blit, blit_at, leb, if◌then◌else◌,
  Bool-cases,
}
use autark.Ulist.{Ulist, u32, get, set}
use autark.Ulist.Holds.{Holds, Holds-bounds}
use autark.Ulist.Cut.{cut, Holds-of-cut}

-- The list with its unit `idx` replaced.
unfoldable pub set_at {ℓ} : {A : Type ℓ} → ℕ → A → List A → List A
set_at idx y [] = []
set_at zero y (x ∷ xs) = y ∷ xs
set_at (suc idx) y (x ∷ xs) = x ∷ set_at idx y xs

-- The index of the first unit that the test accepts.
unfoldable pub index_of {ℓ} : {A : Type ℓ} → (A → Bool) → List A → Option ℕ
index_of p [] = none
index_of p (x ∷ xs) = if p x then some 0 else Option.map suc (index_of p xs)

module _ {ℓ} {A : Type ℓ} where
  -- get shows the unit at its index; a null pointer stands for an index out of range.
  pub get_refines :
      {l : Ulist A} {xs : List A} (idx : ℕ)
      → Holds l xs
      → get l idx ≡ Option.map some (get_elem? xs idx)
  unfolding get
  get_refines {l} {xs} idx h = elim (Bool-cases (leb l.num idx)) [
    | inl out ↦ rw (out, get_elem?_out xs idx (ground (arith, h.num_is)))
    | inr inside ↦
        let m = map {B = Option A} some xs in
        let i_is : u32 (idx + l.start) ≡ l.start + idx = ground (arith, Holds-bounds h, h.small) in
        rw (inside, i_is)
          (ap (λ c. get_elem? c (l.start + idx)) h.splits
            ∙ get_elem?-add_append l.start idx h.pre (m ++ h.post) h.start_is
            ∙ get_elem?-prefix m h.post idx
                (ground (arith, h.num_is, length-map {B = Option A} some xs))
            ∙ get_elem?-map some xs idx)
  ]

  set-Holds :
      {l : Ulist A} (idx : ℕ) (x : A) (xs : List A) (y : A) (ys : List A)
      → Holds l (xs ++ (y ∷ ys))
      → length xs ≡ idx
      → Holds (set l idx x) (xs ++ (x ∷ ys))
  unfolding set
  set-Holds {l} idx x xs y ys h e =
      let c = cut xs (y ∷ ys) h in
      let hl : l.num ≡ length xs + suc (length ys) = sym h.num_is ∙ length-append xs (y ∷ ys) in
      let inside : leb l.num idx ≡ false = ground arith in
      let i = u32 (idx + l.start) in
      rw inside (
        Holds-of-cut xs (x ∷ ys) c.cut_pre c.front c.back
          (ap (blit i (some x ∷ [])) c.splits
            ∙ blit_at i (some x ∷ []) c.front (some y ∷ (map some ys ++ c.back))
                (omega (arith, c.front_is, Holds-bounds h, h.small)))
          c.front_splits c.pre_is (omega arith) (omega (arith, c.back_is)) h.small)

  set_split :
      (idx : ℕ) (x : A) (xs : List A)
      → idx < length xs
      → (us : List A) × (y : A) × (vs : List A) × (xs ≡ us ++ (y ∷ vs))
        × (length us ≡ idx)
        × (set_at idx x xs ≡ us ++ (x ∷ vs))
  unfolding set_at
  set_split idx x [] h = absurd (omega arith)
  set_split zero x (y ∷ xs) h = ([], y, xs, refl, refl, refl)
  set_split (suc idx) x (y ∷ xs) h =
      let (us, z, vs, e, n, r) = set_split idx x xs (omega arith) in
      (y ∷ us, z, vs, ap (λ t. y ∷ t) e, ap suc n, ap (λ t. y ∷ t) r)

  set_at_out : (idx : ℕ) (x : A) (xs : List A) → length xs ≤ idx → set_at idx x xs ≡ xs
  unfolding set_at
  set_at_out idx x [] h = refl
  set_at_out zero x (y ∷ xs) h = absurd (omega arith)
  set_at_out (suc idx) x (y ∷ xs) h = ap (λ t. y ∷ t) (set_at_out idx x xs (omega arith))

  set_out : (l : Ulist A) (idx : ℕ) (x : A) → leb l.num idx ≡ true → set l idx x ≡ l
  unfolding set
  set_out l idx x out = rw out

  -- set replaces the unit at its index, and changes nothing if the index is out of range.
  pub set_refines :
      {l : Ulist A} {xs : List A} (idx : ℕ) (x : A)
      → Holds l xs
      → Holds (set l idx x) (set_at idx x xs)
  set_refines {l} {xs} idx x h = elim (Bool-cases (leb l.num idx)) [
    | inl out ↦ rw (set_out l idx x out, set_at_out idx x xs (ground (arith, h.num_is))) h
    | inr inside ↦
        let (us, y, vs, e, n, r) = set_split idx x xs (ground (arith, h.num_is)) in
        rw r (set-Holds idx x us y vs (rw e at h) n)
  ]
