-- ===== src/Examples/Coding.antt =====
-- bsi/bsi.go: an index that is written and read back, and a search for values.
use mathlib.Core.List.{Perm}
use mathlib.Core.List.Perm as Permutation
use bitstar.Base.{
  ℕ, ◌^◌, ◌<◌, ◌&&◌, ◌≡◌, refl, true, false, List, [], ◌∷◌, Option, some, arith, Bytes, elem,
}
use bitstar.Dense.{dense}
use bitstar.Dense.Bits.{Bits, contains, to_bytes}
use bitstar.Bsi.Defs.{Bsi, get_value}
use bitstar.Bsi.BatchEqual.{batch_equal, batch_equal_lem}
use bitstar.Bsi.Coding.Defs.{marshal_binary, unmarshal_binary, loaded}
use bitstar.Bsi.Coding.RoundTrip.{unmarshal_binary-marshal_binary}

-- Column 0 holds 3 and column 1 holds 2.
abbrev two : Bsi Bits
two = record {
  b_a = (true ∷ []) ∷ (true ∷ true ∷ []) ∷ [];
  e_bm = true ∷ true ∷ [];
  max_value = 0;
  min_value = 0;
  run_optimized = false;
}

abbrev written : List (Option Bytes)
written =
    some (to_bytes (true ∷ true ∷ []))
    ∷ some (to_bytes (true ∷ []))
    ∷ some (to_bytes (true ∷ true ∷ []))
    ∷ []

two-written : marshal_binary dense two ≡ some written
unfolding marshal_binary
two-written = refl

-- An index with one slice that holds something else.
abbrev other : Bsi Bits
other = record two { b_a = (false ∷ true ∷ []) ∷ []; e_bm = false ∷ true ∷ [] }

unmarshal_binary-marshal_binary_example :
    (out : Bsi Bits) × (unmarshal_binary dense other written ≡ loaded out)
    × ((id : ℕ) → get_value dense out id ≡ get_value dense two id)
unmarshal_binary-marshal_binary_example =
    unmarshal_binary-marshal_binary dense two other written (omega arith) (omega arith) two-written

unchanged : (rs : List Bits) → Perm rs rs
unchanged rs = Permutation.refl rs

batch_equal_lem_example :
    (result : Bits) × (batch_equal dense 2 (λ rs. rs) 0 two (3 ∷ 5 ∷ []) ≡ some result)
    × ((c : ℕ)
        → c < 2 ^ 32
        → contains result c
          ≡ ((get_value dense two c).1 && elem (get_value dense two c).0 (3 ∷ 5 ∷ [])))
batch_equal_lem_example =
    batch_equal_lem dense 2 0 (λ rs. rs) two (3 ∷ 5 ∷ []) (omega arith) unchanged
