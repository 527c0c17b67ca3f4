-- ===== src/Ulist/Cut.antt =====
-- ulist.c: the cells of a list, cut at a unit.
use autark.Prelude.{
  ◌+◌, ◌^◌, ◌<◌, ◌≡◌, refl, sym, ap, ◌∙◌, Option, some, List, ◌++◌, map, append_assoc, map-append,
  arith, length, length-append, length-map,
}
use autark.Ulist.{Ulist}
use autark.Ulist.Holds.{Holds, Holds-bounds}

module _ {ℓ} {A : Type ℓ} where
  -- The cells of a list that holds `xs ++ ys`, cut where `ys` begins.
  pub record Cut (l : Ulist A) (xs ys : List A) : Type ℓ where
    pub front : List (Option A)
    pub back : List (Option A)
    pub splits : l.array ≡ front ++ (map some ys ++ back)
    pub front_is : length front ≡ l.start + length xs
    pub cut_pre : List (Option A)
    pub front_splits : front ≡ cut_pre ++ map some xs
    pub pre_is : length cut_pre ≡ l.start
    pub back_is : l.start + length xs + length ys + length back ≡ l.anum

  pub cut : {l : Ulist A} (xs ys : List A) → Holds l (xs ++ ys) → Cut l xs ys
  cut {l} xs ys h =
      let m = map {B = Option A} some xs in
      record {
        front = h.pre ++ m;
        back = h.post;
        splits =
            h.splits
            ∙ ap (λ t. h.pre ++ (t ++ h.post)) (map-append some xs ys)
            ∙ ap (λ t. h.pre ++ t) (append_assoc m (map some ys) h.post)
            ∙ sym (append_assoc h.pre m (map some ys ++ h.post));
        front_is =
            omega (arith, length-append h.pre m, length-map {B = Option A} some xs, h.start_is);
        cut_pre = h.pre;
        front_splits = refl;
        pre_is = h.start_is;
        back_is = omega (arith, Holds-bounds h, h.num_is, length-append xs ys);
      }

  -- A list is known by a cut of its cells.
  pub Holds-of-cut :
      {l : Ulist A} (xs ys : List A) (pre front back : List (Option A))
      → l.array ≡ front ++ (map some ys ++ back)
      → front ≡ pre ++ map some xs
      → length pre ≡ l.start
      → length xs + length ys ≡ l.num
      → l.start + l.num + length back ≡ l.anum
      → l.anum < 2 ^ 32
      → Holds l (xs ++ ys)
  Holds-of-cut {l} xs ys pre front back e f hs hn ha small =
      let m = map {B = Option A} some xs in
      let e' : l.array ≡ pre ++ (map some (xs ++ ys) ++ back) =
        e
        ∙ ap (λ t. t ++ (map some ys ++ back)) f
        ∙ append_assoc pre m (map some ys ++ back)
        ∙ ap (λ t. pre ++ t) (sym (append_assoc m (map some ys) back))
        ∙ ap (λ t. pre ++ (t ++ back)) (sym (map-append some xs ys)) in
      record {
        pre = pre;
        post = back;
        splits = e';
        start_is = hs;
        num_is = length-append xs ys ∙ hn;
        anum_is = omega (
          arith,
          ap (length {A = Option A}) e',
          hs,
          hn,
          ha,
          length-append pre (map some (xs ++ ys) ++ back),
          length-append (map {B = Option A} some (xs ++ ys)) back,
          length-map {B = Option A} some (xs ++ ys),
          length-append xs ys,
        );
        small = small;
      }
