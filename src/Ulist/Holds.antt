-- ===== src/Ulist/Holds.antt =====
-- ulist.c: what a list holds, and the accesses that stay inside its block.
use autark.Prelude.{
  ◌+◌, ◌^◌, ◌<◌, ◌≡◌, ap, Option, some, List, ◌++◌, map, arith, length, length-append, length-map,
}
use autark.Ulist.{Ulist}

module _ {ℓ} {A : Type ℓ} where
  -- The block is `pre`, the written units `xs`, `post`; the counters agree with it.
  pub record Holds (l : Ulist A) (xs : List A) : Type ℓ where
    pub pre : List (Option A)
    pub post : List (Option A)
    pub splits : l.array ≡ pre ++ (map some xs ++ post)
    pub start_is : length pre ≡ l.start
    pub num_is : length xs ≡ l.num
    pub anum_is : length l.array ≡ l.anum
    pub small : l.anum < 2 ^ 32

  -- All units lie inside the block.
  pub Holds-bounds :
      {l : Ulist A} {xs : List A} (h : Holds l xs) → l.start + l.num + length h.post ≡ l.anum
  Holds-bounds {l} {xs} h = omega (
    arith,
    h.start_is,
    h.num_is,
    h.anum_is,
    ap (length {A = Option A}) h.splits,
    length-append h.pre (map some xs ++ h.post),
    length-append (map some xs) h.post,
    length-map {B = Option A} some xs,
  )
