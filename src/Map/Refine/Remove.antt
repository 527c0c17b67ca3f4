-- ===== src/Map/Refine/Remove.antt =====
-- map.c: map_remove takes a key out, frees it, and may shrink the table.
use mathlib.Core.Option
use mathlib.Core.Path.{fun_ext}
use autark.Prelude.{
  ℕ, suc, ◌-◌, ◌*◌, ◌/◌, ◌≤◌, ◌<◌, ◌≡◌, refl, sym, ap, ap₂, ◌∙◌, inl, inr, true, false, ◌&&◌,
  Option, none, some, ◌∷◌, arith, Bytes, str_eq, str_eq_iff, ltb, ◌==◌, if◌then◌else◌, ==_iff,
  Bool-cases,
}
use autark.Map.Table.{
  Entry, Map, set_slot, empty_slot, bit_and, next_slot, map_entry_find, find_loop,
}
use autark.Map.{map_remove, map_entry_remove, map_resize, shrink_table, close_hole}
use autark.Map.Cycle.{pow_two, ones}
use autark.Map.Count.{free_of_count}
use autark.Map.Probe.{hash_of, IsLive}
use autark.Map.Find.{find_lem}
use autark.Map.Close.{ne_of_lt, ne_of_test, Within}
use autark.Map.Close.Loop.{Closed, Closes, close_table}
use autark.Map.Refine.{Holds, room, value_at, value_absent, pow_two_six}
use autark.Map.Refine.Store.{is_some, update, free_old, str_ne}
use autark.Map.Refine.Reserve.{map_resize-Holds, pow_two_step}

module _ {ℓ} {V : Type ℓ} where
  -- The map with the closed table, before it is shrunk.
  closed_map : Map V → ℕ → (ℕ → Entry V) → Map V
  closed_map hm i e = record hm {
    entries = e;
    count = hm.count - 1;
    freed = ((hm.entries i).key, (hm.entries i).val) ∷ hm.freed;
  }

  Closed-Holds :
      (hm : Map V) (f : Bytes → Option (Option V)) (h : Holds hm f) (key : Bytes) (i : ℕ)
      (fits : h.bits ≤ 31) (e : ℕ → Entry V)
      → IsLive (pow_two h.bits) hm.entries (pow_two h.bits) i
      → (hm.entries i).key ≡ key
      → Closed h.bits fits hm.entries i e
      → Holds (closed_map hm i e) (update f key none)
  unfolding closed_map Within
  Closed-Holds hm f h key i fits e v s g = record {
    bits = h.bits;
    low = h.low;
    high = h.high;
    size = h.size;
    masked = h.masked;
    table = g.table;
    counted = omega (arith, g.lost, h.counted);
    load = omega (arith, h.load);
    shows = λ j w.
        let (j', w', q) = g.no_more j w in
        let live = full j' w' in
        let other : str_eq (hm.entries j').key key ≡ false =
          str_ne (hm.entries j').key key
            (λ r. ne_of_test j' i w'.apart (h.table.unique j' i live v (r ∙ sym s))) in
        ap (λ x. update f key none x.key) (sym q)
        ∙ rw other (h.shows j' live)
        ∙ ap (λ x. some x.val) q;
    has = λ q o r. elim (Bool-cases (str_eq q key)) [
      | inl y ↦ absurd (none_here q o r y)
      | inr n ↦
          let old : f q ≡ some o = rw n at r in
          let (j, w, t) = h.has q o old in
          elim (Bool-cases (j == i)) [
            | inl y ↦
                let k : q ≡ key = sym t ∙ ap (λ x. (hm.entries x).key) ((==_iff j i).0 y) ∙ s in
                absurd (cc (n, (str_eq_iff q key).1 k))
            | inr m ↦
                let (j', w', u) =
                  g.kept j (record { within = w.within; busy = w.busy; apart = m }) in
                (j', w', ap (λ x. x.key) u ∙ t)
          ]
    ];
  }
    where
      full :
          (j : ℕ)
          → IsLive (pow_two h.bits) hm.entries i j
          → IsLive (pow_two h.bits) hm.entries (pow_two h.bits) j
      full j w = record {
        within = w.within;
        busy = w.busy;
        apart = ne_of_lt j (pow_two h.bits) w.within;
      }

      none_here :
          (q : Bytes) (o : Option V) → update f key none q ≡ some o → str_eq q key ≡ true → ⊥
      none_here q o r y = let r' : none ≡ some o = rw y at r in cc r'

  -- A map with few entries in a large table gets a smaller one.
  shrink_table-Holds :
      (m : Map V) (f : Bytes → Option (Option V))
      → Holds m f
      → (r : Map V) × (shrink_table m ≡ some r)
        × Holds r f
        × (r.freed ≡ m.freed)
        × (r.count ≡ m.count)
  unfolding shrink_table
  shrink_table-Holds m f h = elim (Bool-cases (ltb 64 m.capacity && ltb m.count (m.capacity / 8))) [
    | inr n ↦ (m, rw n refl, h, refl, refl)
    | inl y ↦
        let large : 64 < m.capacity = ground arith in
        let shrinks : shrink_table m ≡ map_resize m (m.capacity / 2) = rw y refl in
        let few : m.count < m.capacity / 8 = ground arith in
        elim (Bool-cases (h.bits == 6)) [
          | inl six ↦
              let q : m.capacity ≡ 64 =
                h.size ∙ ap pow_two ((==_iff h.bits 6).0 six) ∙ pow_two_six in
              absurd (omega (arith, large, q))
          | inr more ↦
              let k : ℕ = h.bits - 1 in
              let up : suc k ≡ h.bits = ground (arith, h.low) in
              let step : m.capacity ≡ pow_two k * 2 =
                h.size ∙ ap pow_two (sym up) ∙ pow_two_step k in
              let half : m.capacity / 2 ≡ pow_two k = omega (arith, step) in
              let apart : pow_two k == m.capacity ≡ false = ground (arith, step, large) in
              let (r, q, g, c, count, freed) =
                map_resize-Holds m f h k (ground (arith, h.low)) (omega (arith, h.high)) apart
                  (omega (arith, few, step)) in
              (r, shrinks ∙ ap (map_resize m) half ∙ q, g, freed, count)
        ]
  ]

  update_absent :
      (f : Bytes → Option (Option V)) (key : Bytes) → f key ≡ none → f ≡ update f key none
  update_absent f key n = fun_ext (λ q. elim (Bool-cases (str_eq q key)) [
    | inl y ↦ rw (y, (str_eq_iff q key).0 y) n
    | inr m ↦ rw m refl
  ])

  entry_remove_lem :
      (hm : Map V) (i k : ℕ) (e : ℕ → Entry V) (hole : ℕ) (r : Map V)
      → hm.capacity ≡ pow_two k
      → hm.capacity_mask ≡ ones k
      → close_hole (ones k) (pow_two k) hm.entries i (next_slot (ones k) i) ≡ some (e, hole)
      → shrink_table (closed_map hm i (set_slot e hole empty_slot)) ≡ some r
      → map_entry_remove hm i ≡ some r
  unfolding map_entry_remove closed_map Option.bind
  entry_remove_lem hm i k e hole r c m closes shrinks =
      ap₂
        (λ n x.
          Option.bind (close_hole x n hm.entries i (next_slot x i))
            (λ t. shrink_table (closed_map hm i (set_slot t.0 t.1 empty_slot))))
        c m
      ∙ (rw closes shrinks)

  find_at :
      (hm : Map V) (key : Bytes) (k : ℕ) (o : Option (Option ℕ))
      → hm.capacity ≡ pow_two k
      → hm.capacity_mask ≡ ones k
      → find_loop hm.entries
          (ones k)
          key
          (hash_of key)
          (pow_two k)
          (bit_and 32 (hash_of key) (ones k))
        ≡ o
      → map_entry_find hm key (hash_of key) ≡ o
  unfolding map_entry_find
  find_at hm key k o c m q =
      ap₂ (λ n x. find_loop hm.entries x key (hash_of key) n (bit_and 32 (hash_of key) x)) c m ∙ q

  remove_none :
      (hm : Map V) (key : Bytes)
      → map_entry_find hm key (hash_of key) ≡ some none
      → map_remove hm key ≡ some (hm, false)
  unfolding map_remove Option.bind
  remove_none hm key q = rw q refl

  remove_found :
      (hm : Map V) (key : Bytes) (i : ℕ) (r : Map V)
      → map_entry_find hm key (hash_of key) ≡ some (some i)
      → map_entry_remove hm i ≡ some r
      → map_remove hm key ≡ some (r, true)
  unfolding map_remove Option.bind
  remove_found hm key i r q p = rw (q, p) refl

  -- map_remove takes the key and its value out of the map and frees them, says whether they were
  -- there, and all other keys keep what they have.
  pub map_remove-Holds :
      (hm : Map V) (f : Bytes → Option (Option V)) (key : Bytes)
      → Holds hm f
      → (r : Map V) × (map_remove hm key ≡ some (r, is_some (f key)))
        × Holds r (update f key none)
        × (r.freed ≡ free_old key (f key) hm.freed)
        × (r.count ≡ hm.count - (if is_some (f key) then 1 else 0))
  unfolding free_old closed_map Closes
  map_remove-Holds hm f key h =
      let fits : h.bits ≤ 31 = omega (arith, h.high) in
      let (z, z_lt, free) = free_of_count hm.entries (pow_two h.bits) (room hm f h) in
      elim (find_lem h.bits fits hm.entries key h.table z z_lt free) [
        | inr (absent, q) ↦
            let n = value_absent hm f h key absent in
            let found = find_at hm key h.bits (some none) h.size h.masked q in
            let kept : Holds hm (update f key none) = rw (update_absent f key n) at h in
            (
              hm,
              remove_none hm key found ∙ ap (λ o. some (hm, is_some o)) (sym n),
              kept,
              ap (λ o. free_old key o hm.freed) (sym n),
              rw n (omega arith),
            )
        | inl (i, v, s, q) ↦
            let (e', h', closes, g) = close_table h.bits fits hm.entries i z h.table v z_lt free in
            let e = set_slot e' h' empty_slot in
            let (r, shrinks, holds, freed, count) =
              shrink_table-Holds (closed_map hm i e) (update f key none)
                (Closed-Holds hm f h key i fits e v s g) in
            let found = find_at hm key h.bits (some (some i)) h.size h.masked q in
            let removed = entry_remove_lem hm i h.bits e' h' r h.size h.masked closes shrinks in
            let old = value_at hm f h key i v s in
            (
              r,
              remove_found hm key i r found removed ∙ ap (λ o. some (r, is_some o)) (sym old),
              holds,
              freed
                  ∙ ap (λ k. (k, (hm.entries i).val) ∷ hm.freed) s
                  ∙ ap (λ o. free_old key o hm.freed) (sym old),
              rw old count,
            )
      ]
