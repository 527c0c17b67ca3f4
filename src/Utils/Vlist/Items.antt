-- ===== src/Utils/Vlist/Items.antt =====
-- utils.h: the iterator yields the items of a value list, and ends.
use autark.Prelude.{
  ℕ, zero, suc, ◌+◌, ◌<◌, ◌≡◌, refl, sym, ap, ◌∙◌, inl, inr, true, false, some, List, [], ◌∷◌,
  arith, length, take, drop, length-drop, nonempty, skip_seps, item_len, segments, words,
  words-skip_seps, skip_seps_head, length-skip_seps, words_cons, Bytes, ◌==◌, if◌then◌else◌,
  Bool-cases,
}
use autark.Utils.Vlist.{
  VlistIter, sep, next_at, vlist_iter_next, cons_items, items_loop, vlist_items,
}

-- One call of the iterator moves it to the next item, which the loop then copies.
next_at-words :
    (len : ℕ) (s : Bytes)
    → ((c : ℕ) (r : Bytes) → s ≡ c ∷ r → (c == sep) ≡ false)
    → let (more, it) = next_at len s in
      words sep s ≡ (if more then take it.len it.item ∷ words sep (drop it.len it.item) else [])
unfolding next_at
next_at-words len [] h = unfold words segments nonempty in refl
next_at-words len (c ∷ s) h = words_cons sep c s (h c s refl)

next_at-shorter :
    (len : ℕ) (s : Bytes)
    → ((c : ℕ) (r : Bytes) → s ≡ c ∷ r → (c == sep) ≡ false)
    → let (more, it) = next_at len s in more ≡ true → length (drop it.len it.item) < length s
unfolding next_at item_len
next_at-shorter len [] h e = cc
next_at-shorter len (c ∷ s) h e = rw (h c s refl) (omega (arith, length-drop (item_len sep s) s))

vlist_iter_next-words :
    (it : VlistIter)
    → let (more, it') = vlist_iter_next it in
      words sep (drop it.len it.item)
      ≡ (if more then take it'.len it'.item ∷ words sep (drop it'.len it'.item) else [])
unfolding vlist_iter_next
vlist_iter_next-words it =
    let s = drop it.len it.item in
    sym (words-skip_seps sep s) ∙ next_at-words it.len (skip_seps sep s) (skip_seps_head sep s)

vlist_iter_next-shorter :
    (it : VlistIter)
    → let (more, it') = vlist_iter_next it in
      more ≡ true → length (drop it'.len it'.item) < length (drop it.len it.item)
unfolding vlist_iter_next
vlist_iter_next-shorter it e =
    let s = drop it.len it.item in
    omega (
      arith,
      next_at-shorter it.len (skip_seps sep s) (skip_seps_head sep s) e,
      length-skip_seps sep s,
    )

items_loop-words :
    (fuel : ℕ) (it : VlistIter)
    → length (drop it.len it.item) < fuel
    → items_loop fuel it ≡ some (words sep (drop it.len it.item))
unfolding items_loop
items_loop-words zero it h = elim h [ ]
items_loop-words (suc fuel) it h =
    let it' = (vlist_iter_next it).1 in
    let w = vlist_iter_next-words it in
    elim (Bool-cases (vlist_iter_next it).0) [
      | inl more ↦ rw more (
          ap (cons_items (take it'.len it'.item))
            (items_loop-words fuel it' (omega (arith, vlist_iter_next-shorter it more)))
          ∙ ap (λ (x : List Bytes). some x) (sym (rw more at w)))
      | inr done ↦ rw done (ap (λ (x : List Bytes). some x) (sym (rw done at w)))
    ]

-- The loop over a value list ends, and sees its items: the parts between separators that are not
-- empty.
pub vlist_items-words : (v : Bytes) → vlist_items v ≡ some (words sep v)
unfolding vlist_items
vlist_items-words v = items_loop-words (length v + 1) (record { item = v; len = 0 }) (omega arith)
