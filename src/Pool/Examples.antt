-- ===== src/Pool/Examples.antt =====
-- pool.c: a small run, and the theorem at it.
use mathlib.Core.Option
use autark.Prelude.{
  ℕ, ◌^◌, ◌<◌, ◌≡◌, refl, inl, Bool, true, Option, none, some, List, [], ◌∷◌, ◌++◌, map, arith,
  codes, All, ltb,
}
use autark.Pool.{
  Place, Pool, pool_create_empty, write, write_at, take_bytes, extend, pool_alloc, pool_strdup,
  pool_strndup, alloc_bytes,
}
use autark.Pool.History.{
  Call, alloc, strdup, strndup, Handed, Kept, Separate, call, calls, size_of, bytes_of, calls_apart,
}
use autark.Utils.Text.{strnlen}

-- Blocks of less than 4096 bytes can be had.
abbrev small_only : ℕ → Bool
small_only n = ltb n 4096

abbrev three_calls : List Call
three_calls = strdup (some (codes "autark")) ∷ alloc 20 ∷ strndup (some (codes "cache")) 2 ∷ []

abbrev places : Option (Pool × List Handed) → List Place
places none = []
places (some r) = map (λ h. h.place) r.1

three_places :
    places (calls small_only three_calls pool_create_empty [])
    ≡ some (1, 24) ∷ some (1, 0) ∷ some (0, 0) ∷ []
unfolding calls call pool_strdup pool_strndup pool_alloc alloc_bytes extend take_bytes write_at
    write size_of bytes_of strnlen Option.bind
three_places = refl

abbrev after : Pool
after = record {
  usiz = 32;
  asiz = 40;
  blocks = 40 ∷ 8 ∷ [];
  heap = some (1, 32);
  cells = write (write (λ b o. none) 0 0 (codes "autark" ++ 0 ∷ [])) 1 24 (codes "ca" ++ 0 ∷ []);
}

abbrev handed : List Handed
handed =
    record { place = some (1, 24); size = 3; bytes = codes "ca" ++ 0 ∷ [] }
    ∷ record { place = some (1, 0); size = 20; bytes = [] }
    ∷ record { place = some (0, 0); size = 7; bytes = codes "autark" ++ 0 ∷ [] }
    ∷ []

three_calls_run : calls small_only three_calls pool_create_empty [] ≡ some (after, handed)
unfolding calls call pool_strdup pool_strndup pool_alloc alloc_bytes extend take_bytes write_at
    write size_of bytes_of strnlen Option.bind
three_calls_run = refl

below_limit : (n : ℕ) → small_only n ≡ true → n < 2 ^ 62
below_limit n h = ground arith

requests_small : All (λ c. size_of c < 2 ^ 62) three_calls
unfolding size_of strnlen
requests_small = (omega arith, (omega arith, (omega arith, tt)))

calls_apart_example : All (Kept after) handed × Separate handed
calls_apart_example =
    calls_apart small_only below_limit three_calls pool_create_empty after handed (inl refl)
      requests_small three_calls_run
