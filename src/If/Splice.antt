-- ===== src/If/Splice.antt =====
-- node_if.c: what takes the place of an `if`.
use autark.Prelude.{
  ℕ, zero, suc, ◌<◌, ◌≡◌, refl, ap, ◌∙◌, Option, none, some, List, [], ◌∷◌, ◌++◌, arith, length,
  All, eq_self,
}
use autark.If.{Links, put, Heap, prev_from, adopt_behind, adopt, link, splice}
use autark.If.Siblings.{
  Trail, NotIn, Distinct, Disjoint, last, put-Trail, Trail-append, NotIn-last, redirect, sym_ne,
  Disjoint-last, Disjoint-last_behind,
}

-- The last of the nodes, or `prev` if there are none.
abbrev pub last_or : Option ℕ → List ℕ → Option ℕ
last_or prev [] = prev
last_or prev (x ∷ xs) = last_or (some x) xs

last_or-last : (x : ℕ) (xs : List ℕ) → last_or (some x) xs ≡ some (last x xs)
last_or-last x [] = refl
last_or-last x (y ∷ ys) = last_or-last y ys

pub prev_from-last :
    (fuel : ℕ) (f : Links) (n : ℕ) (prev o : Option ℕ) (pre : List ℕ)
    → NotIn n pre
    → Trail f o pre (some n)
    → length pre < fuel
    → prev_from fuel f n prev o ≡ some (last_or prev pre)
unfolding prev_from
prev_from-last zero f n prev o pre d h l = absurd (omega arith)
prev_from-last (suc fuel) f n prev o [] d h l = rw h (rw (eq_self n) refl)
prev_from-last (suc fuel) f n prev o (x ∷ pre) d h l =
    rw h.0 (rw (sym_ne n x d.0) (prev_from-last fuel f n (some x) (f x) pre d.1 h.1 (omega arith)))

-- The nodes handed to the parent p.
abbrev owned_by : Links → ℕ → List ℕ → Links
owned_by f p [] = f
owned_by f p (x ∷ xs) = owned_by (put f x (some p)) p xs

adopt_lem :
    (fuel p x : ℕ) (xs : List ℕ) (next : Option ℕ) (h : Heap)
    → Trail h.next (h.next x) xs none
    → length xs < fuel
    → adopt fuel p next (some x) h
      ≡ some
          (record h { next = put h.next (last x xs) next; parent = owned_by h.parent p (x ∷ xs) })
unfolding adopt adopt_behind
adopt_lem zero p x xs next h c l = absurd (omega arith)
adopt_lem (suc fuel) p x [] next h c l =
    ap
      (adopt_behind (λ y g. adopt fuel p next y g) next x
        (record h { parent = put h.parent x (some p) }))
      c
adopt_lem (suc fuel) p x (y ∷ ys) next h c l =
    ap
      (adopt_behind (λ y g. adopt fuel p next y g) next x
        (record h { parent = put h.parent x (some p) }))
      c.0
    ∙ adopt_lem fuel p y ys next (record h { parent = put h.parent x (some p) }) c.1 (omega arith)

owned_other : (f : Links) (p k : ℕ) (xs : List ℕ) → NotIn k xs → owned_by f p xs k ≡ f k
owned_other f p k [] n = refl
owned_other f p k (x ∷ xs) n = owned_other (put f x (some p)) p k xs n.1 ∙ rw (sym_ne k x n.0) refl

owned_each :
    (f : Links) (p : ℕ) (xs : List ℕ) → Distinct xs → All (λ x. owned_by f p xs x ≡ some p) xs
owned_each f p [] d = tt
owned_each f p (x ∷ xs) d = (
  owned_other (put f x (some p)) p x xs d.0 ∙ rw (eq_self x) refl,
  owned_each (put f x (some p)) p xs d.1,
)

-- The nodes around n: its siblings before it, and those behind it and its else block.
pub record Around (h : Heap) (n p : ℕ) (next : Option ℕ) (pre post : List ℕ) : Type 0 where
  pub before : Trail h.next (h.child p) pre (some n)
  pub after : Trail h.next next post none
  pub n_before : NotIn n pre
  pub n_after : NotIn n post
  pub distinct : Distinct pre
  pub apart : Disjoint pre post

-- The nodes that come in the place of n.
pub record Branch (h : Heap) (n : ℕ) (first : Option ℕ) (pre body post : List ℕ) : Type 0 where
  pub nodes : Trail h.next first body none
  pub n_inside : NotIn n body
  pub distinct : Distinct body
  pub before_apart : Disjoint pre body
  pub after_apart : Disjoint body post

-- The nodes of the branch stand where n was, n itself leads to them, and they have its parent.
pub record Spliced (h : Heap) (n p : ℕ) (pre body post : List ℕ) : Type 0 where
  pub siblings : Trail h.next (h.child p) (pre ++ (body ++ post)) none
  pub behind : Trail h.next (h.next n) (body ++ post) none
  pub parents : All (λ x. h.parent x ≡ some p) body

-- What n->next = x and the link in front of n leave.
record Linked (g r : Heap) (n p : ℕ) (x : Option ℕ) (pre : List ℕ) : Type 0 where
  front : Trail r.next (r.child p) pre x
  kept :
      (o o' : Option ℕ) (xs : List ℕ)
      → NotIn n xs
      → Disjoint pre xs
      → Trail g.next o xs o'
      → Trail r.next o xs o'
  from_n : r.next n ≡ x

link-Linked :
    (g : Heap) (n p : ℕ) (x : Option ℕ) (pre : List ℕ)
    → Trail g.next (g.child p) pre (some n)
    → NotIn n pre
    → Distinct pre
    → Linked g (link (last_or none pre) p x (record g { next = put g.next n x })) n p x pre
unfolding link
link-Linked g n p x [] b a d = record {
  front = rw (eq_self p) refl;
  kept = λ o o' xs m j h. put-Trail g.next n x xs o o' m h;
  from_n = rw (eq_self n) refl;
}
link-Linked g n p x (y ∷ ys) b a d = rw (last_or-last y ys) (record {
  front =
      redirect (put g.next n x) x (g.child p) (some n) y ys d
        (put-Trail g.next n x (y ∷ ys) (g.child p) (some n) a b);
  kept = λ o o' xs m j h.
      put-Trail (put g.next n x) (last y ys) x xs o o' (Disjoint-last y ys xs j)
        (put-Trail g.next n x xs o o' m h);
  from_n = rw (sym_ne n (last y ys) (NotIn-last n y ys a)) (rw (eq_self n) refl);
})

pub splice-Spliced :
    (fuel : ℕ) (g : Heap) (n p : ℕ) (first next : Option ℕ) (pre body post : List ℕ)
    → Around g n p next pre post
    → Branch g n first pre body post
    → length body < fuel
    → (h' : Heap) × (splice fuel n p (last_or none pre) first next g ≡ some h')
      × Spliced h' n p pre body post
unfolding splice
splice-Spliced fuel g n p first next pre [] post a b l =
    let k = link-Linked g n p next pre a.before a.n_before a.distinct in
    let r = link (last_or none pre) p next (record g { next = put g.next n next }) in
    let rest = k.kept next none post a.n_after a.apart a.after in
    (
      r,
      rw b.nodes refl,
      record {
        siblings = Trail-append r.next pre post (r.child p) next none k.front rest;
        behind = rw k.from_n rest;
        parents = tt;
      },
    )
splice-Spliced fuel g n p first next pre (x ∷ xs) post a b l =
    let k = link-Linked g n p (some x) pre a.before a.n_before a.distinct in
    let r = link (last_or none pre) p (some x) (record g { next = put g.next n (some x) }) in
    let here = k.kept (some x) none (x ∷ xs) b.n_inside b.before_apart (refl, b.nodes.1) in
    let rest = k.kept next none post a.n_after a.apart a.after in
    let f = put r.next (last x xs) next in
    let tail =
      Trail-append f (x ∷ xs) post (some x) next none
        (redirect r.next next (some x) none x xs b.distinct here)
        (put-Trail r.next (last x xs) next post next none (Disjoint-last x xs post b.after_apart)
          rest) in
    let front =
      put-Trail r.next (last x xs) next pre (r.child p) (some x)
        (Disjoint-last_behind pre x xs b.before_apart) k.front in
    (
      record r { next = f; parent = owned_by r.parent p (x ∷ xs) },
      rw b.nodes.0 (adopt_lem fuel p x xs next r here.1 (omega arith)),
      record {
        siblings = Trail-append f pre ((x ∷ xs) ++ post) (r.child p) (some x) none front tail;
        behind = rw (sym_ne n (last x xs) (NotIn-last n x xs b.n_inside)) (rw k.from_n tail);
        parents = owned_each r.parent p (x ∷ xs) b.distinct;
      },
    )
