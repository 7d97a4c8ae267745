-- ===== src/Examples/Slices.antt =====
-- bsi/bsi.go: the calls on an index of two columns, 5 at column 0 and 2 at column 1.
use mathlib.Core.List.Perm as Permutation
use mathlib.Core.List.{Perm}
use bitstar.Base.{
  any, ℕ, zero, suc, ◌+◌, ◌-◌, ◌<◌, ◌*◌, ◌^◌, ◌≡◌, ◌≢◌, refl, true, false, List, [], ◌∷◌, none,
  some, arith, inl, ◌&&◌, ◌||◌, ◌↔◌, ◌==◌, if◌then◌else◌, length, elem, leb, ltb, len64, bit,
  signed_rank,
}
use bitstar.Dense.{dense}
use bitstar.Dense.Bits.{Bits, contains, remove, zip_bits}
use bitstar.Dense.Bits.{add as add_column}
use bitstar.Bsi.Defs.{
  Bsi, auto_size, grow, write_bits, write_many, column, set_value, set_many, get_value,
}
use bitstar.Bsi.Value.{Unset, slices_value}
use bitstar.Bsi.SetGet.{
  IsValid, IsWritten, set_value-IsWritten, set_value-eq-none_iff, set_many-reads,
}
use bitstar.Bsi.Executor.{parallel_executor, Keeps, parallel_executor_lem}
use bitstar.Bsi.Compare.Defs.{slice_contains, Operation, compare_value, compare_column}
use bitstar.Bsi.Compare.Signed.{compare_column_strict, compare_column-Mirrored, Mirrored}
use bitstar.Bsi.Compare.Parallel.{compare_value-le, compare_value-ge, searched}
use bitstar.Bsi.Ops.{par_or, clear_values, add}
use bitstar.Bsi.Adding.{add_lem}
use bitstar.Bsi.Uniting.{par_or-unites, par_or_drops}
use bitstar.Bsi.Sets.{clear_values-reads}

abbrev pair : Bits
pair = true ∷ true ∷ []

abbrev first_only : Bits
first_only = true ∷ false ∷ []

abbrev second_only : Bits
second_only = false ∷ true ∷ []

abbrev two : Bsi Bits
two = record {
  b_a = first_only ∷ second_only ∷ first_only ∷ [];
  e_bm = pair;
  max_value = 0;
  min_value = 0;
  run_optimized = false;
}

two-Unset : (c : ℕ) → contains pair c ≡ false → Unset dense c two.b_a
unfolding contains
two-Unset zero h = absurd (ground arith)
two-Unset (suc zero) h = absurd (ground arith)
two-Unset (suc (suc c)) h = (refl, (refl, (refl, tt)))

two-IsValid : IsValid dense two
two-IsValid = record { no_stale = two-Unset; width = omega arith }

-- After 9 is written at column 1.
abbrev nine : Bsi Bits
nine = record two { b_a = pair ∷ (false ∷ false ∷ []) ∷ first_only ∷ second_only ∷ [] }

two-set_value : set_value dense two 1 9 ≡ some nine
unfolding set_value auto_size grow len64 write_bits add_column bit contains remove
two-set_value = refl

set_value-IsWritten_example : IsWritten dense two nine 1 9
set_value-IsWritten_example =
    set_value-IsWritten dense two nine 1 9 two-IsValid (omega arith) (inl (refl, refl))
      two-set_value

set_value-eq-none_iff_example :
    (set_value dense (record two { run_optimized = true }) 1 100 ≡ none)
    ↔ (zero ≡ zero) × (zero ≡ zero) × (true ≡ true) × (2 * length two.b_a < len64 100)
set_value-eq-none_iff_example =
    set_value-eq-none_iff dense (record two { run_optimized = true }) 1 100

-- After 9 is written at columns 1 and 2.
abbrev nines : Bsi Bits
nines = record two {
  b_a =
      (true ∷ true ∷ true ∷ [])
      ∷ (false ∷ false ∷ false ∷ [])
      ∷ (true ∷ false ∷ false ∷ [])
      ∷ (false ∷ true ∷ true ∷ [])
      ∷ [];
  e_bm = true ∷ true ∷ true ∷ [];
}

two-set_many : set_many dense two (false ∷ true ∷ true ∷ []) 9 ≡ some nines
unfolding set_many auto_size grow len64 write_many bit zip_bits
two-set_many = refl

set_many-reads_example :
    ((id : ℕ)
      → get_value dense nines id ≡ (
          if contains (false ∷ true ∷ true ∷ []) (column id)
          then (9, true)
          else get_value dense two id))
    × IsValid dense nines
set_many-reads_example =
    set_many-reads dense two nines (false ∷ true ∷ true ∷ []) 9 two-IsValid (omega arith)
      (inl (refl, refl)) two-set_many

unchanged-Perm : (rs : List Bits) → Perm rs rs
unchanged-Perm rs = Permutation.refl rs

compare_value-le_example :
    (result : Bits) × (compare_value dense 2 (λ rs. rs) two 0 Operation.le 4 0 none ≡ some result)
    × ((c : ℕ)
        → contains result c ≡ (
            contains (searched dense two none) c
            && leb (signed_rank (slices_value dense c 0 two.b_a)) (signed_rank 4)))
compare_value-le_example =
    compare_value-le dense 2 0 (λ rs. rs) two 4 0 none (omega arith) unchanged-Perm (omega arith)
      (omega arith)

compare_value-ge_example :
    (result : Bits) × (compare_value dense 2 (λ rs. rs) two 4 Operation.ge 4 0 (some pair)
      ≡ some result)
    × ((c : ℕ)
        → contains result c ≡ (
            contains (searched dense two (some pair)) c
            && leb (signed_rank 4) (signed_rank (slices_value dense c 0 two.b_a))))
compare_value-ge_example =
    compare_value-ge dense 2 4 (λ rs. rs) two 4 0 (some pair) (omega arith) unchanged-Perm
      (omega arith) (omega arith)

two-unmirrored : ¬ Mirrored (slices_value dense 0 0 two.b_a) 5
unfolding slices_value
two-unmirrored h = ground (arith, h.0)

compare_column_strict_example :
    (compare_column dense two Operation.lt 5 0 0
      ≡ some (ltb (signed_rank (slices_value dense 0 0 two.b_a)) (signed_rank 5)))
    × (compare_column dense two Operation.gt 5 0 0
        ≡ some (ltb (signed_rank 5) (signed_rank (slices_value dense 0 0 two.b_a))))
    × (compare_column dense two Operation.eq 5 0 0 ≡ some (slices_value dense 0 0 two.b_a == 5))
compare_column_strict_example =
    compare_column_strict dense two (omega arith) 5 0 0 (omega arith) two-unmirrored

two-Mirrored : Mirrored (slices_value dense 0 0 two.b_a) (2 ^ 64 - 5)
unfolding slices_value contains
two-Mirrored = (refl, refl)

compare_column-Mirrored_example :
    (compare_column dense two Operation.eq (2 ^ 64 - 5) 0 0 ≡ some true)
    × (compare_column dense two Operation.lt (2 ^ 64 - 5) 0 0 ≡ some false)
    × (compare_column dense two Operation.gt (2 ^ 64 - 5) 0 0 ≡ some false)
    × (slices_value dense 0 0 two.b_a ≢ 2 ^ 64 - 5)
compare_column-Mirrored_example =
    compare_column-Mirrored dense two (omega arith) (2 ^ 64 - 5) 0 0 (omega arith) two-Mirrored

add_lem_example :
    (r : Bsi Bits) × (add dense two nine ≡ some r)
    × ((c : ℕ)
        → slices_value dense c 0 r.b_a
          ≡ slices_value dense c 0 two.b_a + slices_value dense c 0 nine.b_a)
    × ((c : ℕ) → contains r.e_bm c ≡ (contains two.e_bm c || contains nine.e_bm c))
add_lem_example = add_lem dense two nine

clear_values-reads_example :
    ((id : ℕ)
      → get_value dense (clear_values dense two first_only) id
        ≡ (if contains first_only (column id) then (0, false) else get_value dense two id))
    × IsValid dense (clear_values dense two first_only)
clear_values-reads_example = clear_values-reads dense two first_only two-IsValid

-- A goroutine that keeps its whole batch.
unfoldable kept : List ℕ → Bits
unfolding add_column
kept [] = []
kept (c ∷ cs) = dense.add (kept cs) c

kept-contains : (batch : List ℕ) (c : ℕ) → contains (kept batch) c ≡ (elem c batch && true)
unfolding kept
kept-contains [] c = unfold contains in ground arith
kept-contains (d ∷ ds) c = ground (arith, kept-contains ds c, dense.contains-add (kept ds) d c)

kept-Keeps : Keeps dense (λ batch. some (kept batch)) (λ c. true)
kept-Keeps batch = (kept batch, refl, kept-contains batch)

parallel_executor_lem_example :
    (result : Bits) × (parallel_executor dense 2 (λ rs. rs) 3 (λ batch. some (kept batch)) pair
      ≡ some result)
    × ((c : ℕ) → contains result c ≡ (contains pair c && true))
parallel_executor_lem_example =
    parallel_executor_lem dense 2 3 (λ rs. rs) (λ batch. some (kept batch)) (λ c. true) pair
      (omega arith) unchanged-Perm kept-Keeps

-- An index of one slice.
abbrev narrow : Bsi Bits
narrow = record two { b_a = first_only ∷ [] }

par_or-unites_example :
    slice_contains dense (par_or dense two (nine ∷ [])).b_a 1 1
    ≡ (contains second_only 1 || any (λ x. slice_contains dense x.b_a 1 1) (nine ∷ []))
par_or-unites_example = par_or-unites dense two (nine ∷ []) 1 1 second_only refl ((_, refl), tt)

par_or_drops_example :
    slice_contains dense (par_or dense two (nine ∷ narrow ∷ two ∷ [])).b_a 0 1
    ≡ (contains second_only 0 || any (λ z. slice_contains dense z.b_a 0 1) (two ∷ []))
par_or_drops_example =
    par_or_drops dense two (nine ∷ []) narrow (two ∷ []) 1 0 second_only refl refl ((_, refl), tt)
