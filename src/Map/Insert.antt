-- ===== src/Map/Insert.antt =====
-- map.c: a table keeps its invariant when an entry is put into the slot where its probe stops.
use autark.Prelude.{
  ℕ, ◌≤◌, ◌<◌, ◌≡◌, sym, ap, ◌∙◌, inl, inr, true, false, ◌==◌, ==_iff, Bool-cases, eq_self,
}
use autark.Map.Table.{Entry, set_slot, bit_and}
use autark.Map.Cycle.{pow_two, ones, at, dist, bit_and-lt}
use autark.Map.Arcs.{dist-at}
use autark.Map.Probe.{hash_of, IsBusy, IsLive, home, IsTable}

module _ {ℓ} {V : Type ℓ} where
  pub set_same : (e : ℕ → Entry V) (i : ℕ) (x : Entry V) → set_slot e i x i ≡ x
  set_same e i x = rw (eq_self i)

  pub set_other :
      (e : ℕ → Entry V) (i : ℕ) (x : Entry V) (j : ℕ) → j == i ≡ false → set_slot e i x j ≡ e j
  set_other e i x j f = rw f

  -- Tables with the same hashes, and the same keys where they hold entries.
  pub same_keys-IsTable :
      (k : ℕ) (e e' : ℕ → Entry V) (hole : ℕ)
      → ((j : ℕ) → (e' j).hash ≡ (e j).hash)
      → ((j : ℕ) → IsLive (pow_two k) e hole j → (e' j).key ≡ (e j).key)
      → IsTable k e hole
      → IsTable k e' hole
  same_keys-IsTable k e e' hole hs ks t =
      let live = λ (j : ℕ) (v : IsLive (pow_two k) e' hole j). IsLive-back k e e' hole hs j v in
      record {
        hashed = λ i v. hs i ∙ t.hashed i (live i v) ∙ ap hash_of (sym (ks i (live i v)));
        reach = λ i d v l.
            let from : home k (e' i) ≡ home k (e i) = ap (λ x. bit_and 32 x (ones k)) (hs i) in
            rw (from, hs (at (pow_two k) (home k (e i)) d)) (t.reach i d (live i v) (rw from at l));
        unique = λ i j v w q.
            t.unique i j (live i v) (live j w) (sym (ks i (live i v)) ∙ q ∙ ks j (live j w));
      }
    where
      IsLive-back :
          (k : ℕ) (e e' : ℕ → Entry V) (hole : ℕ)
          → ((j : ℕ) → (e' j).hash ≡ (e j).hash)
          → (j : ℕ) → IsLive (pow_two k) e' hole j
          → IsLive (pow_two k) e hole j
      IsLive-back k e e' hole hs j v = record {
        within = v.within;
        busy = rw (sym (hs j)) v.busy;
        apart = v.apart;
      }

  module _ (k : ℕ) (fits : k ≤ 31) (e : ℕ → Entry V) (x : Entry V) (x_busy : x.hash == 0 ≡ false)
      (d : ℕ) (d_lt : d < pow_two k) where
    abbrev pub slot : ℕ
    slot = at (pow_two k) (home k x) d

    set-IsBusy : (i j : ℕ) → IsBusy e j → IsBusy (set_slot e i x) j
    set-IsBusy i j b = elim (Bool-cases (j == i)) [ inl y ↦ rw y x_busy | inr n ↦ rw n b ]

    at_slot : (j : ℕ) → j == slot ≡ true → set_slot e slot x j ≡ x
    at_slot j y = rw y

    IsLive-other :
        (j : ℕ)
        → j == slot ≡ false
        → IsLive (pow_two k) (set_slot e slot x) (pow_two k) j
        → IsLive (pow_two k) e (pow_two k) j
    IsLive-other j n v = record { within = v.within; busy = rw n at v.busy; apart = v.apart }

    pub insert-IsTable :
        ((t : ℕ) → t < d → IsBusy e (at (pow_two k) (home k x) t))
        → x.hash ≡ hash_of x.key
        → ((j : ℕ) → IsLive (pow_two k) e (pow_two k) j → (e j).key ≡ x.key → ⊥)
        → IsTable k e (pow_two k)
        → IsTable k (set_slot e slot x) (pow_two k)
    insert-IsTable passed hx new t = record {
      hashed = λ j v. elim (Bool-cases (j == slot)) [
        | inl y ↦ rw y hx
        | inr n ↦ rw n (t.hashed j (IsLive-other j n v))
      ];
      reach = λ j m v l. elim (Bool-cases (j == slot)) [
        | inl y ↦
            let js = (==_iff j slot).0 y in
            let here : set_slot e slot x j ≡ x = rw y in
            let far : dist (pow_two k) (home k x) j ≡ d =
              ap (dist (pow_two k) (home k x)) js
              ∙ dist-at (pow_two k) (home k x) (bit_and-lt k fits x.hash) d d_lt in
            let near : m < dist (pow_two k) (home k x) j = rw here at l in
            rw here (set-IsBusy slot (at (pow_two k) (home k x) m) (passed m (rw far at near)))
        | inr n ↦
            let there : set_slot e slot x j ≡ e j = rw n in
            let near : m < dist (pow_two k) (home k (e j)) j = rw there at l in
            rw there (
              set-IsBusy slot (at (pow_two k) (home k (e j)) m)
                (t.reach j m (IsLive-other j n v) near))
      ];
      unique = λ i j v w q. elim (Bool-cases (i == slot)) [
        | inl y ↦ elim (Bool-cases (j == slot)) [
          | inl z ↦ (==_iff i slot).0 y ∙ sym ((==_iff j slot).0 z)
          | inr z ↦ absurd (
              new j (IsLive-other j z w) (
                ap (λ y. y.key) (sym (set_other e slot x j z))
                ∙ sym q
                ∙ ap (λ y. y.key) (at_slot i y)))
        ]
        | inr y ↦ elim (Bool-cases (j == slot)) [
          | inl z ↦ absurd (
              new i (IsLive-other i y v) (
                ap (λ y. y.key) (sym (set_other e slot x i y)) ∙ q ∙ ap (λ y. y.key) (at_slot j z)))
          | inr z ↦ t.unique i j (IsLive-other i y v) (IsLive-other j z w) (
              ap (λ y. y.key) (sym (set_other e slot x i y))
              ∙ q
              ∙ ap (λ y. y.key) (set_other e slot x j z))
        ]
      ];
    }
