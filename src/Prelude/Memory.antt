-- ===== src/Prelude/Memory.antt =====
-- Blocks of memory cells: `memcpy`, `memmove` and `realloc` at the granularity of one cell.
-- A write past the end makes the block longer, so a block that keeps its length was written
-- inside its bounds.
use Prim.Native.Nat.{ℕ, zero, suc, ◌+◌, ◌-◌, ◌≤◌, ◌<◌}
use native.Mathlib.Nat.{zero-add, suc-add}
use mathlib.Core.Path.{◌≡◌, refl, ap, ap₂, sym, ◌∙◌}
use mathlib.Core.List.{List, [], ◌∷◌, ◌++◌, append_assoc}
use mathlib.Core.Option.{Option, none}
use native.Mathlib.Omega.{arith}
use autark.Prelude.Lists.{
  length, take, drop, replicate, take-append, drop-append, length-append, length-replicate,
  length-drop, length-take,
}

module _ {ℓ} {A : Type ℓ} where
  -- n cells from index i on.
  unfoldable pub slice : ℕ → ℕ → List A → List A
  slice i n cells = take n (drop i cells)

  -- The cells `new` written at index i.
  unfoldable pub blit : ℕ → List A → List A → List A
  blit i new cells = take i cells ++ (new ++ drop (i + length new) cells)

  -- memmove(cells + to, cells + from, n)
  unfoldable pub memmove : ℕ → ℕ → ℕ → List A → List A
  unfolding blit slice
  memmove to from n cells = blit to (slice from n cells) cells

  pub slice_split :
      (i n : ℕ) (a b c : List A) → length a ≡ i → length b ≡ n → slice i n (a ++ (b ++ c)) ≡ b
  unfolding slice
  slice_split i n a b c ha hb = ap (take n) (drop-append i a (b ++ c) ha) ∙ take-append n b c hb

  pub blit_split :
      (i : ℕ) (new a b c : List A)
      → length a ≡ i
      → length b ≡ length new
      → blit i new (a ++ (b ++ c)) ≡ a ++ (new ++ c)
  unfolding blit
  blit_split i new a b c ha hb = rw (take-append i a (b ++ c) ha) (
      ap (λ t. a ++ (new ++ t))
        (ap (drop (i + length new)) (sym (append_assoc a b c))
          ∙ drop-append (i + length new) (a ++ b) c (omega (arith, length-append a b))))

-- realloc: the common prefix is kept, what is new is not initialised.
unfoldable pub realloc {ℓ} : {A : Type ℓ} → ℕ → List (Option A) → List (Option A)
realloc n cells = take n cells ++ replicate (n - length cells) none

length-take_fill {ℓ} :
    {A : Type ℓ} (n : ℕ) (cells : List A) → length (take n cells) + (n - length cells) ≡ n
length-take_fill zero cells = omega arith
length-take_fill (suc n) [] = omega arith
length-take_fill (suc n) (x ∷ cells) = omega (arith, length-take_fill n cells)

module _ {ℓ} {A : Type ℓ} where
  pub length-realloc : (n : ℕ) (cells : List (Option A)) → length (realloc n cells) ≡ n
  unfolding realloc
  length-realloc n cells = omega (
    arith,
    length-append (take n cells) (replicate (n - length cells) none),
    length-replicate {A = Option A} (n - length cells) none,
    length-take_fill n cells,
  )

  pub realloc_keeps :
      (n : ℕ) (a b : List (Option A))
      → length a ≤ n
      → realloc n (a ++ b) ≡ a ++ realloc (n - length a) b
  unfolding realloc
  realloc_keeps n [] b h = ap (λ k. take k b ++ replicate (k - length b) none) (omega arith)
  realloc_keeps zero (x ∷ a) b h = absurd (omega arith)
  realloc_keeps (suc n) (x ∷ a) b h =
      ap (λ t. x ∷ t)
        (ap (λ k. take n (a ++ b) ++ replicate k none) (omega arith)
          ∙ realloc_keeps n a b (omega arith)
          ∙ ap (λ k. a ++ (take k b ++ replicate (k - length b) none)) (omega arith))

module _ {ℓ} {A : Type ℓ} where
  pub drop-add_append : (n k : ℕ) (a r : List A) → length a ≡ n → drop (n + k) (a ++ r) ≡ drop k r
  drop-add_append zero k [] r h = ap (λ m. drop m r) (zero-add k)
  drop-add_append zero k (x ∷ a) r h = absurd (omega arith)
  drop-add_append (suc n) k [] r h = absurd (omega arith)
  drop-add_append (suc n) k (x ∷ a) r h =
      ap (λ m. drop m (x ∷ (a ++ r))) (suc-add n k) ∙ drop-add_append n k a r (omega arith)

  -- A write that begins where `a` ends.
  pub blit_at :
      (i : ℕ) (new a r : List A)
      → length a ≡ i
      → blit i new (a ++ r) ≡ a ++ (new ++ drop (length new) r)
  unfolding blit
  blit_at i new a r h =
      ap₂ (λ s t. s ++ (new ++ t)) (take-append i a r h) (drop-add_append i (length new) a r h)

  -- The cells `b` moved one cell up, and `x` written in the gap.
  pub blit_gap :
      (i : ℕ) (x y : A) (a b r : List A)
      → length a ≡ i
      → blit i (x ∷ []) (blit (i + 1) b (a ++ (y ∷ r))) ≡ a ++ (x ∷ (b ++ drop (length b) r))
  blit_gap i x y a b r h =
      ap (blit i (x ∷ [])) (
        ap (blit (i + 1) b) (sym (append_assoc a (y ∷ []) r))
        ∙ blit_at (i + 1) b (a ++ (y ∷ [])) r (omega (arith, length-append a (y ∷ [])))
        ∙ append_assoc a (y ∷ []) (b ++ drop (length b) r))
      ∙ blit_at i (x ∷ []) a (y ∷ (b ++ drop (length b) r)) h

  -- The cells `b` moved one cell down.
  pub memmove_down :
      (i n : ℕ) (x : A) (a b p : List A)
      → length a ≡ i
      → length b ≡ n
      → memmove i (i + 1) n (a ++ (x ∷ (b ++ p))) ≡ a ++ (b ++ drop (length b) (x ∷ (b ++ p)))
  unfolding memmove
  memmove_down i n x a b p ha hb =
      ap (λ t. blit i t (a ++ (x ∷ (b ++ p))))
        (ap (slice (i + 1) n) (sym (append_assoc a (x ∷ []) (b ++ p)))
          ∙ slice_split (i + 1) n (a ++ (x ∷ [])) b p (omega (arith, length-append a (x ∷ []))) hb)
      ∙ blit_at i b a (x ∷ (b ++ p)) ha

pub nonempty_split {ℓ} :
    {A : Type ℓ} (xs : List A) → 0 < length xs → (y : A) × (r : List A) × (xs ≡ y ∷ r)
nonempty_split [] h = absurd (omega arith)
nonempty_split (y ∷ r) h = (y, r, refl)

-- A write inside the block leaves its length.
pub length-blit {ℓ} :
    {A : Type ℓ} (i : ℕ) (new cells : List A)
    → i + length new ≤ length cells
    → length (blit i new cells) ≡ length cells
unfolding blit
length-blit i new cells h = omega (
  arith,
  length-append (take i cells) (new ++ drop (i + length new) cells),
  length-append new (drop (i + length new) cells),
  length-drop (i + length new) cells,
  length-take i cells (omega arith),
)
