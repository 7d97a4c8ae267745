-- ===== src/Bsi/Compare/Parallel.antt =====
-- `CompareValue` as a whole: whatever the number of goroutines and their order, the columns of the
-- set that pass the comparison.
use mathlib.Core.List.{Perm}
use bitstar.Base.{
  ℕ, ◌^◌, ◌≤◌, ◌<◌, ◌≡◌, refl, ap, Bool, ◌&&◌, ◌||◌, List, [], ◌∷◌, arith, if◌then◌else◌, length,
  elem, none, some, signed_rank, leb, Option,
}
use bitstar.Roaring.{Roaring}
use bitstar.Bsi.Defs.{Bsi}
use bitstar.Bsi.Value.{slices_value}
use bitstar.Bsi.Executor.{parallel_executor_lem, Keeps}
use bitstar.Bsi.Compare.Defs.{
  Operation, compare_column, compare_columns, compare_batch, compare_value,
}
use bitstar.Bsi.Compare.Signed.{compare_column-le, compare_column-ge}

module _ (R : Roaring) where
  open R use {Bitmap}

  compare_columns_lem :
      (test : ℕ → Option Bool) (p : ℕ → Bool)
      → ((c : ℕ) → test c ≡ some (p c))
      → (cs : List ℕ) (results : Bitmap)
      → (r : Bitmap) × (compare_columns R test cs results ≡ some r)
        × ((c : ℕ) → R.contains r c ≡ (R.contains results c || (elem c cs && p c)))
  unfolding compare_columns
  compare_columns_lem test p passes [] results = (results, refl, λ c. ground arith)
  compare_columns_lem test p passes (c ∷ cs) results =
      let added = if p c then R.add results c else results in
      let (r, runs, holds) = compare_columns_lem test p passes cs added in
      (
        r,
        ground (arith, passes c, runs),
        λ d. ground (arith, holds d, R.contains-add results c d, ap p),
      )

  compare_batch-Keeps :
      (b : Bsi Bitmap) (op : Operation) (value end_value : ℕ) (p : ℕ → Bool)
      → ((c : ℕ) → compare_column R b op value end_value c ≡ some (p c))
      → Keeps R (compare_batch R b op value end_value) p
  unfolding compare_batch
  compare_batch-Keeps b op value end_value p passes batch =
      let empty = if b.run_optimized then R.run_optimize R.new else R.new in
      let (r, runs, holds) =
        compare_columns_lem (compare_column R b op value end_value) p passes batch empty in
      (r, runs, λ c. ground (arith, holds c, R.contains-new c, R.contains-run_optimize R.new c))

  -- The set that a comparison looks at.
  abbrev pub searched : Bsi Bitmap → Option Bitmap → Bitmap
  searched b found_set = elim found_set [ none ↦ b.e_bm | some f ↦ f ]

  module _ (num_cpu parallelism : ℕ) (arrive : List Bitmap → List Bitmap) (b : Bsi Bitmap)
      (value end_value : ℕ) (found_set : Option Bitmap) (cpus : 0 < num_cpu)
      (arrives : (rs : List Bitmap) → Perm (arrive rs) rs) (narrow : length b.b_a ≤ 64)
      (small : value < 2 ^ 64) where
    -- `CompareValue` with `LE` returns exactly the columns of the set whose value is at most the
    -- bound, as an `int64`: for every number of goroutines and every order in which they finish,
    -- on an index of at most 64 slices, for a bound of 64 bits.
    pub compare_value-le :
        (result : Bitmap) × (compare_value R num_cpu arrive b parallelism Operation.le value
            end_value found_set
          ≡ some result)
        × ((c : ℕ)
            → R.contains result c ≡ (
                R.contains (searched b found_set) c
                && leb (signed_rank (slices_value R c 0 b.b_a)) (signed_rank value)))
    unfolding compare_value
    compare_value-le =
        parallel_executor_lem R num_cpu parallelism arrive
          (compare_batch R b Operation.le value end_value)
          (λ c. leb (signed_rank (slices_value R c 0 b.b_a)) (signed_rank value))
          (searched b found_set) cpus arrives
          (compare_batch-Keeps b Operation.le value end_value _
            (λ c. compare_column-le R b narrow value end_value c small))

    -- `CompareValue` with `GE` returns exactly the columns of the set whose value is at least the
    -- bound, as an `int64`: for every number of goroutines and every order in which they finish,
    -- on an index of at most 64 slices, for a bound of 64 bits.
    pub compare_value-ge :
        (result : Bitmap) × (compare_value R num_cpu arrive b parallelism Operation.ge value
            end_value found_set
          ≡ some result)
        × ((c : ℕ)
            → R.contains result c ≡ (
                R.contains (searched b found_set) c
                && leb (signed_rank value) (signed_rank (slices_value R c 0 b.b_a))))
    unfolding compare_value
    compare_value-ge =
        parallel_executor_lem R num_cpu parallelism arrive
          (compare_batch R b Operation.ge value end_value)
          (λ c. leb (signed_rank value) (signed_rank (slices_value R c 0 b.b_a)))
          (searched b found_set) cpus arrives
          (compare_batch-Keeps b Operation.ge value end_value _
            (λ c. compare_column-ge R b narrow value end_value c small))
