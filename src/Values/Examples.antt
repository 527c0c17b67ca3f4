-- ===== src/Values/Examples.antt =====
-- node_join.c, node_dir.c, node_basename.c: the theorems at concrete values, and runs of the functions.
use autark.Prelude.{◌≡◌, refl, true, some, [], ◌∷◌, ◌++◌, map, words, encode, Bytes, codes}
use autark.Utils.Vlist.{sep, is_vlist, vlist_items}
use autark.Values.{join_value, basename_value}
use autark.Values.Join.{valued, join_value-items, basename_value-stem}

-- A list of two items.
abbrev listed : Bytes
listed = encode sep (codes "a" ∷ codes "b" ∷ [])

listed-is_vlist : is_vlist listed ≡ true
unfolding is_vlist encode
listed-is_vlist = refl

join_value-items_example :
    ((r : Bytes) × (join_value (valued (codes "-I") ∷ valued listed ∷ []) ≡ some r)
      × (vlist_items r ≡ some (map (λ x. codes "-I" ++ x) (words sep listed))))
    × ((r : Bytes) × (join_value (valued listed ∷ valued (codes "-I") ∷ []) ≡ some r)
        × (vlist_items r ≡ some (map (λ x. x ++ codes "-I") (words sep listed))))
join_value-items_example = join_value-items (codes "-I") listed (refl, (refl, tt)) listed-is_vlist

-- %{hello.x .c}
basename_value-stem_example :
    (basename_value (valued (codes "hello" ++ (b'.' ∷ codes "x")) ∷ []) ≡ some (codes "hello"))
    × (basename_value (valued (codes "hello" ++ (b'.' ∷ codes "x")) ∷ valued (codes ".c") ∷ [])
        ≡ some (codes "hello" ++ (codes "hello" ++ (b'.' ∷ codes "x"))))
basename_value-stem_example =
    basename_value-stem (codes "hello") (codes "x") (valued (codes ".c")) [] (refl, tt)
