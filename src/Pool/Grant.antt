-- ===== src/Pool/Grant.antt =====
-- pool.c: where pool_alloc puts what it hands out.
use mathlib.Core.Option
use mathlib.Core.Path.{subst}
use mathlib.Core.Option.{some_inj}
use autark.Prelude.{
  ℕ, suc, ◌+◌, ◌%◌, ◌^◌, ◌≤◌, ◌<◌, ◌≡◌, refl, sym, ◌∙◌, ◌⊎◌, inl, inr, Bool, true, false, Option,
  none, some, List, [], ◌∷◌, arith, length, ltb, ◌==◌, if◌then◌else◌, Bool-cases, eq_self,
}
use autark.Pool.{
  Place, Pool, pool_create_empty, round_up, take_bytes, extend, pool_alloc,
  pool_create_preallocated,
}
use autark.Xstr.{u64}

-- The size of a block, by its number from the oldest on.
unfoldable pub block_size : List ℕ → ℕ → ℕ
block_size [] b = 0
block_size (n ∷ ns) b = if b == length ns then n else block_size ns b

-- The bytes that have been handed out: all older blocks, and the current one up to usiz.
abbrev pub Used : Pool → ℕ → ℕ → Type 0
Used p b o = (suc b < length p.blocks) ⊎ ((suc b ≡ length p.blocks) × (o < p.usiz))

-- The pointer `heap` stands behind the bytes in use of the current block, if there is one.
pub data Current (p : Pool) : Type 0 where
  no_block : length p.blocks ≡ 0 → p.heap ≡ none → p.asiz ≡ 0 → Current p
  block :
      (b : ℕ)
      → suc b ≡ length p.blocks
      → p.heap ≡ some (b, p.usiz)
      → block_size p.blocks b ≡ p.asiz
      → Current p

pub record Inv (p : Pool) : Type 0 where
  pub current : Current p
  pub fits : p.usiz ≤ p.asiz
  pub bounded : p.asiz < 2 ^ 62
  pub aligned : p.usiz % 8 ≡ 0

pub empty-Inv : Inv pool_create_empty
empty-Inv = record {
  current = no_block refl refl refl;
  fits = omega arith;
  bounded = omega arith;
  aligned = refl;
}

-- Where siz bytes are put, which were not in use and are from then on.
pub data Placed (p q : Pool) (siz : ℕ) (h : Place) : Type 0 where
  nowhere : h ≡ none → siz ≡ 0 → Placed p q siz h
  placed :
      (b o : ℕ)
      → h ≡ some (b, o)
      → b < length q.blocks
      → o + siz ≤ block_size q.blocks b
      → o % 8 ≡ 0
      → ((i : ℕ) → i < siz → (Used p b (o + i) → ⊥) × Used q b (o + i))
      → Placed p q siz h

pub record Grant (p q : Pool) (siz : ℕ) (h : Place) : Type 0 where
  pub inv : Inv q
  pub used : (b o : ℕ) → Used p b o → Used q b o
  pub more : length p.blocks ≤ length q.blocks
  pub sizes : (b : ℕ) → b < length p.blocks → block_size q.blocks b ≡ block_size p.blocks b
  pub same_cells : q.cells ≡ p.cells
  pub place : Placed p q siz h

pub round_up_lem :
    (n : ℕ) → n + 8 < 2 ^ 64 → (n ≤ round_up n) × (round_up n ≤ n + 7) × (round_up n % 8 ≡ 0)
round_up_lem n l = (ground arith, ground arith, ground arith)

take_place :
    (p : Pool) (n siz : ℕ)
    → Inv p
    → siz ≤ n
    → p.usiz + n ≤ p.asiz
    → u64 (p.usiz + n) ≡ p.usiz + n
    → Current p
    → Current (take_bytes p n).0 × Placed p (take_bytes p n).0 siz (take_bytes p n).1
unfolding take_bytes
take_place p n siz i l f sum (no_block none_yet null no_size) =
    (no_block none_yet (rw null refl) no_size, nowhere null (omega (arith, f, no_size, l)))
take_place p n siz i l f sum (block b e h s) = (
  block b e (rw (h, sum) refl) s,
  placed b p.usiz h (omega (arith, e)) (omega (arith, s, f, l)) i.aligned (λ k k_lt. (
    λ u. elim u [
      | inl older ↦ absurd (omega (arith, older, e))
      | inr in_use ↦ absurd (omega (arith, in_use.1))
    ],
    inr (e, omega (arith, sum, k_lt, l)),
  )),
)

take-Grant :
    (p : Pool) (n siz : ℕ)
    → Inv p
    → n % 8 ≡ 0
    → siz ≤ n
    → p.usiz + n ≤ p.asiz
    → Grant p (take_bytes p n).0 siz (take_bytes p n).1
unfolding take_bytes
take-Grant p n siz i m l f =
    let sum : u64 (p.usiz + n) ≡ p.usiz + n = ground (arith, i.bounded) in
    let (current, place) = take_place p n siz i l f sum i.current in
    record {
      inv = record {
        current = current;
        fits = omega (arith, sum, f);
        bounded = i.bounded;
        aligned = omega (arith, sum, i.aligned, m);
      };
      used = λ b o u. elim u [
        | inl older ↦ inl older
        | inr in_use ↦ inr (in_use.0, omega (arith, in_use.1, sum))
      ];
      more = omega arith;
      sizes = λ b x. refl;
      same_cells = refl;
      place = place;
    }

-- What a new block leaves of the others.
record Extends (p q : Pool) (n : ℕ) : Type 0 where
  inv : Inv q
  used : (b o : ℕ) → Used p b o → Used q b o
  more : length p.blocks ≤ length q.blocks
  sizes : (b : ℕ) → b < length p.blocks → block_size q.blocks b ≡ block_size p.blocks b
  same_cells : q.cells ≡ p.cells
  unused : q.usiz ≡ 0
  size : q.asiz ≡ n

pub map-some {ℓ} :
    {A B : Type ℓ} (m : Option A) (f : A → B) (b : B)
    → Option.map f m ≡ some b
    → (a : A) × (m ≡ some a) × (f a ≡ b)
map-some none f b h = absurd (cc h)
map-some (some a) f b h = (a, refl, some_inj.0 h)

module _ (xmalloc : ℕ → Bool) (limit : (n : ℕ) → xmalloc n ≡ true → n < 2 ^ 62) where
  extend-Extends :
      (p q : Pool) (siz : ℕ) → extend xmalloc p siz ≡ some q → Extends p q (round_up siz)
  unfolding extend block_size
  extend-Extends p q siz h = elim (Bool-cases (xmalloc (round_up siz))) [
    | inr o ↦ (let h' : none ≡ some q = rw o at h in absurd (cc h'))
    | inl y ↦
        let h' = rw y at h in
        rw (sym (some_inj.0 h')) (record {
          inv = record {
            current = block (length p.blocks) refl refl (rw (eq_self (length p.blocks)) refl);
            fits = omega arith;
            bounded = limit (round_up siz) y;
            aligned = refl;
          };
          used = λ b o u. elim u [
            | inl older ↦ inl (omega (arith, older))
            | inr in_use ↦ inl (omega (arith, in_use.0))
          ];
          more = omega arith;
          sizes = λ b x. let apart : b == length p.blocks ≡ false = ground arith in rw apart refl;
          same_cells = refl;
          unused = refl;
          size = refl;
        })
  ]

  in_new-Grant :
      (p r q : Pool) (n siz : ℕ) (h : Place) → Extends p r n → Grant r q siz h → Grant p q siz h
  in_new-Grant p r q n siz h e g = record {
    inv = g.inv;
    used = λ b o u. g.used b o (e.used b o u);
    more = omega (arith, e.more, g.more);
    sizes = λ b x. g.sizes b (omega (arith, x, e.more)) ∙ e.sizes b x;
    same_cells = g.same_cells ∙ e.same_cells;
    place = placed_before g.place;
  }
    where
      placed_before : Placed r q siz h → Placed p q siz h
      placed_before (nowhere a b) = nowhere a b
      placed_before (placed b o a in_block fits m u) =
          placed b o a in_block fits m (λ k l. (λ v. (u k l).0 (e.used b (o + k) v), (u k l).1))

  pub pool_alloc-Grant :
      (p q : Pool) (siz : ℕ) (h : Place)
      → Inv p
      → siz < 2 ^ 62
      → pool_alloc xmalloc p siz ≡ some (q, h)
      → Grant p q siz h
  unfolding pool_alloc
  pool_alloc-Grant p q siz h i l e =
      let n = round_up siz in
      let (n_ge, n_le, n_mod) = round_up_lem siz (omega (arith, l)) in
      let sum : u64 (p.usiz + n) ≡ p.usiz + n = ground (arith, i.bounded, i.fits) in
      elim (Bool-cases (ltb p.asiz (u64 (p.usiz + n)))) [
        | inr o ↦
            let room : p.usiz + n ≤ p.asiz = ground (arith, sum) in
            let e' : some (take_bytes p n) ≡ some (q, h) = rw o at e in
            subst (λ r. Grant p r.0 siz r.1) (some_inj.0 e') (take-Grant p n siz i n_mod n_ge room)
        | inl y ↦
            let e' = rw y at e in
            let (r, new, got) =
              map-some (extend xmalloc p (u64 (u64 (p.usiz + n) + p.asiz))) (λ x. take_bytes x n)
                (q, h) e' in
            let x = extend-Extends p r (u64 (u64 (p.usiz + n) + p.asiz)) new in
            let exact : u64 (u64 (p.usiz + n) + p.asiz) ≡ p.usiz + n + p.asiz =
              ground (arith, sum, i.bounded, i.fits) in
            let (big, _, _) =
              round_up_lem (u64 (u64 (p.usiz + n) + p.asiz))
                (omega (arith, exact, i.bounded, i.fits, l, n_le)) in
            let g =
              take-Grant r n siz x.inv n_mod n_ge (omega (arith, x.unused, x.size, big, exact)) in
            in_new-Grant p r q (round_up (u64 (u64 (p.usiz + n) + p.asiz))) siz h x
              (subst (λ v. Grant r v.0 siz v.1) got g)
      ]

  pub preallocated-Inv : (sz : ℕ) (q : Pool) → pool_create_preallocated xmalloc sz ≡ some q → Inv q
  unfolding pool_create_preallocated
  preallocated-Inv sz q h = (extend-Extends pool_create_empty q sz h).inv
