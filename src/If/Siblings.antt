-- ===== src/If/Siblings.antt =====
-- node_if.c: lists of siblings in the heap, and how writes change them.
use autark.Prelude.{
  ℕ, ◌≡◌, refl, false, Option, some, List, [], ◌∷◌, ◌++◌, arith, All, ◌==◌, eq_self,
}
use autark.If.{Links, put}

-- From o on the links go through the nodes xs, and then to o'.
abbrev pub Trail : Links → Option ℕ → List ℕ → Option ℕ → Type 0
Trail f o [] o' = o ≡ o'
Trail f o (x ∷ xs) o' = (o ≡ some x) × Trail f (f x) xs o'

abbrev pub NotIn : ℕ → List ℕ → Type 0
NotIn k xs = All (λ x. (k == x) ≡ false) xs

abbrev pub Distinct : List ℕ → Type 0
Distinct [] = Unit
Distinct (x ∷ xs) = NotIn x xs × Distinct xs

abbrev pub Disjoint : List ℕ → List ℕ → Type 0
Disjoint xs ys = All (λ x. NotIn x ys) xs

-- The last node of x ∷ xs.
abbrev pub last : ℕ → List ℕ → ℕ
last x [] = x
last x (y ∷ ys) = last y ys

pub put-Trail :
    (f : Links) (k : ℕ) (v : Option ℕ) (xs : List ℕ) (o o' : Option ℕ)
    → NotIn k xs
    → Trail f o xs o'
    → Trail (put f k v) o xs o'
put-Trail f k v [] o o' n h = h
put-Trail f k v (x ∷ xs) o o' n h = (h.0, rw n.0 (put-Trail f k v xs (f x) o' n.1 h.1))

pub Trail-append :
    (f : Links) (xs ys : List ℕ) (o m o' : Option ℕ)
    → Trail f o xs m
    → Trail f m ys o'
    → Trail f o (xs ++ ys) o'
Trail-append f [] ys o m o' h k = rw h k
Trail-append f (x ∷ xs) ys o m o' h k = (h.0, Trail-append f xs ys (f x) m o' h.1 k)

pub NotIn-last : (k x : ℕ) (xs : List ℕ) → NotIn k (x ∷ xs) → (k == last x xs) ≡ false
NotIn-last k x [] n = n.0
NotIn-last k x (y ∷ ys) n = NotIn-last k y ys n.1

pub sym_ne : (a b : ℕ) → (a == b) ≡ false → (b == a) ≡ false
sym_ne a b h = ground arith

-- A write to the last node leads elsewhere from there.
pub redirect :
    (f : Links) (v o o' : Option ℕ) (x : ℕ) (xs : List ℕ)
    → Distinct (x ∷ xs)
    → Trail f o (x ∷ xs) o'
    → Trail (put f (last x xs) v) o (x ∷ xs) v
redirect f v o o' x [] d h = (h.0, rw (eq_self x) refl)
redirect f v o o' x (y ∷ ys) d h =
    (h.0, rw (sym_ne x (last y ys) (NotIn-last x y ys d.0)) (redirect f v (f x) o' y ys d.1 h.1))

pub Disjoint-last : (x : ℕ) (xs ys : List ℕ) → Disjoint (x ∷ xs) ys → NotIn (last x xs) ys
Disjoint-last x [] ys d = d.0
Disjoint-last x (z ∷ zs) ys d = Disjoint-last z zs ys d.1

pub Disjoint-last_behind :
    (xs : List ℕ) (y : ℕ) (ys : List ℕ) → Disjoint xs (y ∷ ys) → NotIn (last y ys) xs
Disjoint-last_behind [] y ys d = tt
Disjoint-last_behind (x ∷ xs) y ys d =
    (sym_ne x (last y ys) (NotIn-last x y ys d.0), Disjoint-last_behind xs y ys d.1)
