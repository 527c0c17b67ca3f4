-- ===== src/Values/Join.antt =====
-- node_join.c, node_basename.c: joins of a text with a list, and base names.
use mathlib.Core.Option
use autark.Prelude.{
  ◌≡◌, refl, sym, ap, ◌∙◌, ◌≢◌, true, false, Option, none, some, List, [], ◌∷◌, ◌++◌, map,
  append-nil, append_assoc, words, encode, IsItem, words-IsItem, Bytes, Without, All,
}
use autark.Utils.Vlist.{sep, is_vlist, vlist_items}
use autark.Utils.Vlist.Items.{vlist_items-words}
use autark.Utils.Vlist.Encode.{vlist_items-encode}
use autark.Values.{
  Child, or_all, pick_join, add_items, join_pair, join_all, join_value, before_last_dot,
  basename_value,
}

-- A child with a value, in which no byte spreads it.
abbrev pub valued : Bytes → Child
valued v = record { val = some v; spread = false }

add_items-encode :
    (change : Bytes → Bytes) (items : List Bytes) (xstr : Bytes)
    → add_items change items xstr ≡ xstr ++ encode sep (map change items)
unfolding add_items encode
add_items-encode change [] xstr = sym (append-nil xstr)
add_items-encode change (x ∷ xs) xstr =
    add_items-encode change xs (xstr ++ (sep ∷ change x))
    ∙ append_assoc xstr (sep ∷ change x) (encode sep (map change xs))

plain_not_vlist : (p : Bytes) → Without sep p → is_vlist p ≡ false
unfolding is_vlist
plain_not_vlist [] w = refl
plain_not_vlist (c ∷ p) w = w.0

Without-append : (p x : Bytes) → Without sep p → Without sep x → Without sep (p ++ x)
Without-append [] x w v = v
Without-append (c ∷ p) x w v = (w.0, Without-append p x w.1 v)

nonempty_behind : (p x : Bytes) → x ≢ [] → p ++ x ≢ []
nonempty_behind [] x n = n
nonempty_behind (c ∷ p) x n = λ e. cc

nonempty_before : (x p : Bytes) → x ≢ [] → x ++ p ≢ []
nonempty_before [] p n = absurd (n refl)
nonempty_before (c ∷ x) p n = λ e. cc

prefixed :
    (p : Bytes) (xs : List Bytes)
    → Without sep p
    → All (IsItem sep) xs
    → All (IsItem sep) (map (λ x. p ++ x) xs)
prefixed p [] w all = tt
prefixed p (x ∷ xs) w all =
    ((nonempty_behind p x all.0.0, Without-append p x w all.0.1), prefixed p xs w all.1)

suffixed :
    (p : Bytes) (xs : List Bytes)
    → Without sep p
    → All (IsItem sep) xs
    → All (IsItem sep) (map (λ x. x ++ p) xs)
suffixed p [] w all = tt
suffixed p (x ∷ xs) w all =
    ((nonempty_before x p all.0.0, Without-append x p all.0.1 w), suffixed p xs w all.1)

-- The loop of a special case makes the value list of the changed items.
changed_items :
    (change : Bytes → Bytes) (v : Bytes)
    → Option.map (λ items. add_items change items []) (vlist_items v)
      ≡ some (encode sep (map change (words sep v)))
changed_items change v =
    ap (Option.map (λ items. add_items change items [])) (vlist_items-words v)
    ∙ ap (λ (t : Bytes). some t) (add_items-encode change (words sep v) [])

pair-prefix :
    (p v : Bytes)
    → is_vlist p ≡ false
    → is_vlist v ≡ true
    → join_pair p v ≡ some (some (encode sep (map (λ x. p ++ x) (words sep v))))
unfolding join_pair
pair-prefix p v plain list =
    rw (plain, list) (ap (λ (t : Option Bytes). some t) (changed_items (λ x. p ++ x) v))

pair-suffix :
    (p v : Bytes)
    → is_vlist p ≡ false
    → is_vlist v ≡ true
    → join_pair v p ≡ some (some (encode sep (map (λ x. x ++ p) (words sep v))))
unfolding join_pair
pair-suffix p v plain list =
    rw (plain, list) (ap (λ (t : Option Bytes). some t) (changed_items (λ x. x ++ p) v))

-- A text without bytes 1 joined with a value list, in front of it or behind it, is a value list whose
-- items are the items of the list with the text in front of them or behind them.
pub join_value-items :
    (p v : Bytes)
    → Without sep p
    → is_vlist v ≡ true
    → ((r : Bytes) × (join_value (valued p ∷ valued v ∷ []) ≡ some r)
        × (vlist_items r ≡ some (map (λ x. p ++ x) (words sep v))))
      × ((r : Bytes) × (join_value (valued v ∷ valued p ∷ []) ≡ some r)
          × (vlist_items r ≡ some (map (λ x. x ++ p) (words sep v))))
unfolding join_value pick_join
join_value-items p v w list =
    let plain = plain_not_vlist p w in
    let all = words-IsItem sep v in
    (
      (
        encode sep (map (λ x. p ++ x) (words sep v)),
        ap (or_all (join_all (valued p ∷ valued v ∷ []) (some []))) (pair-prefix p v plain list),
        vlist_items-encode (map (λ x. p ++ x) (words sep v)) (prefixed p (words sep v) w all),
      ),
      (
        encode sep (map (λ x. x ++ p) (words sep v)),
        ap (or_all (join_all (valued v ∷ valued p ∷ []) (some []))) (pair-suffix p v plain list),
        vlist_items-encode (map (λ x. x ++ p) (words sep v)) (suffixed p (words sep v) w all),
      ),
    )

-- The text behind the last '.' holds no other.
last_dot :
    (stem ext : Bytes) → Without b'.' ext → before_last_dot (stem ++ (b'.' ∷ ext)) ≡ some stem
unfolding before_last_dot
last_dot [] ext w = ap (λ o. elim o [ none ↦ some [] | some r ↦ some (b'.' ∷ r) ]) (no_dot ext w)
  where
    no_dot : (s : Bytes) → Without b'.' s → before_last_dot s ≡ none
    no_dot [] w = unfold before_last_dot in refl
    no_dot (c ∷ s) w = unfold before_last_dot in rw (no_dot s w.1, w.0) refl
last_dot (c ∷ stem) ext w = rw (last_dot stem ext w) refl

-- The base name of a value with an extension is what stands in front of its last '.'; with a further
-- child, what is put behind it is the first value again and not the second.
pub basename_value-stem :
    (stem ext : Bytes) (c : Child) (cs : List Child)
    → Without b'.' ext
    → (basename_value (valued (stem ++ (b'.' ∷ ext)) ∷ []) ≡ some stem)
      × (basename_value (valued (stem ++ (b'.' ∷ ext)) ∷ c ∷ cs)
          ≡ some (stem ++ (stem ++ (b'.' ∷ ext))))
unfolding basename_value
basename_value-stem stem ext c cs w = rw (last_dot stem ext w) (refl, refl)
