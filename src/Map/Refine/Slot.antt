-- ===== src/Map/Refine/Slot.antt =====
-- map.c: the slot that _map_entry_put answers.
use autark.Prelude.{
  ℕ, suc, ◌+◌, ◌≤◌, ◌<◌, ◌≡◌, refl, ap, ap₂, ◌∙◌, ◌⊎◌, inl, inr, true, false, Option, none, some,
  [], arith, Bytes, ◌==◌,
}
use autark.Map.Table.{
  Map, set_slot, bit_and, matches, map_hash_buf_key, map_entry_put, put_loop, next_slot,
}
use autark.Map.Probe.{map_nhash_nonzero}
use autark.Map.Cycle.{pow_two, ones, at, bit_and-lt}
use autark.Map.Arcs.{at-lt}
use autark.Map.Count.{free_of_count}
use autark.Map.Probe.{hash_of, IsBusy, IsLive, IsTable, probe}
use autark.Map.Find.{loop-Probe, wanted_key, probed-IsLive, probe-IsAbsent}
use autark.Map.Insert.{insert-IsTable}
use autark.Map.Refine.{Holds, room, value_absent}
use autark.Map.Refine.Store.{stored}

module _ {ℓ} {V : Type ℓ} where
  unfoldable pub claimed : Map V → ℕ → ℕ → Map V
  claimed hm nhash i = record hm {
    entries = set_slot hm.entries i (record { key = []; val = none; hash = nhash });
    count = hm.count + 1;
  }

  put_step :
      (hm : Map V) (key : Bytes) (mask n i : ℕ)
      → hm.capacity_mask ≡ mask
      → IsBusy hm.entries i
      → matches key (hash_of key) (hm.entries i) ≡ false
      → put_loop hm key (hash_of key) (suc n) i ≡ put_loop hm key (hash_of key) n (next_slot mask i)
  unfolding put_loop
  put_step hm key mask n i q b m =
      (rw (b, m) refl) ∙ ap (λ x. put_loop hm key (hash_of key) n (next_slot x i)) q

  put_claims :
      (hm : Map V) (key : Bytes) (n i : ℕ)
      → (hm.entries i).hash == 0 ≡ true
      → put_loop hm key (hash_of key) (suc n) i ≡ some (claimed hm (hash_of key) i, i, true)
  unfolding put_loop claimed
  put_claims hm key n i z = rw z refl

  put_finds :
      (hm : Map V) (key : Bytes) (n i : ℕ)
      → IsBusy hm.entries i
      → matches key (hash_of key) (hm.entries i) ≡ true
      → put_loop hm key (hash_of key) (suc n) i ≡ some (hm, i, false)
  unfolding put_loop
  put_finds hm key n i b m = rw (b, m) refl

  -- The slot that _map_entry_put answers: that of the key, or an empty one in which the key can stand.
  pub entry_put_lem :
      (hm : Map V) (f : Bytes → Option (Option V)) (h : Holds hm f) (key : Bytes)
      → ((i : ℕ) × IsLive (pow_two h.bits) hm.entries (pow_two h.bits) i
          × ((hm.entries i).key ≡ key)
          × (map_entry_put hm key (hash_of key) ≡ some (hm, i, false)))
        ⊎ ((i : ℕ) × (f key ≡ none)
            × (i < pow_two h.bits)
            × ((hm.entries i).hash == 0 ≡ true)
            × (map_entry_put hm key (hash_of key) ≡ some (claimed hm (hash_of key) i, i, true))
            × ((val : Option V)
                → IsTable h.bits (set_slot hm.entries i (stored key val)) (pow_two h.bits)))
  unfolding map_entry_put stored
  entry_put_lem hm f h key =
      let fits : h.bits ≤ 31 = omega (arith, h.high) in
      let e = hm.entries in
      let l = bit_and-lt h.bits fits (hash_of key) in
      let (z, z_lt, free) = free_of_count e (pow_two h.bits) (room hm f h) in
      let r =
        probe (pow_two h.bits) e (matches key (hash_of key))
          (bit_and 32 (hash_of key) (ones h.bits)) z l z_lt free in
      let (n, q) =
        loop-Probe h.bits fits e (matches key (hash_of key)) (put_loop hm key (hash_of key))
          (λ n i b m. put_step hm key (ones h.bits) n i h.masked b m)
          (bit_and 32 (hash_of key) (ones h.bits)) l r in
      let begin : map_entry_put hm key (hash_of key)
          ≡ put_loop hm key (hash_of key) (pow_two h.bits)
              (bit_and 32 (hash_of key) (ones h.bits)) =
        ap₂ (λ c m. put_loop hm key (hash_of key) c (bit_and 32 (hash_of key) m)) h.size h.masked in
      let i = at (pow_two h.bits) (bit_and 32 (hash_of key) (ones h.bits)) r.away in
      elim r.stop [
        | inl empty ↦
            let absent = probe-IsAbsent h.bits fits e key h.table r empty in
            inr (
              i,
              value_absent hm f h key absent,
              at-lt (pow_two h.bits) (bit_and 32 (hash_of key) (ones h.bits)) l r.away r.inside,
              empty,
              begin ∙ q ∙ put_claims hm key n i empty,
              λ val.
                  insert-IsTable h.bits fits e (stored key val)
                    (map_nhash_nonzero (map_hash_buf_key key)) r.away r.inside
                    (λ s m. (r.passed s m).0) refl absent h.table,
            )
        | inr (busy, m) ↦ inl (
          i,
          probed-IsLive h.bits fits e key r busy,
          (wanted_key h.bits fits e key (e i) m).1,
          begin ∙ q ∙ put_finds hm key n i busy m,
        )
      ]
