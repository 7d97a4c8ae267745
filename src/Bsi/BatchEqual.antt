-- ===== src/Bsi/BatchEqual.antt =====
-- bsi/bsi.go: `BatchEqual` and `batchEqual`.
use mathlib.Core.List.{Perm}
use native.Mathlib.Nat.{mod-eq_of_lt}
use bitstar.Base.{
  ℕ, ◌^◌, ◌<◌, ◌≡◌, refl, ◌∙◌, Bool, true, false, ◌&&◌, ◌||◌, List, [], ◌∷◌, Option, some, arith,
  elem, if◌then◌else◌, ◌==◌, Bool-cases, inl, inr,
}
use bitstar.Roaring.{Roaring}
use bitstar.Bsi.Defs.{Bsi, get_value}
use bitstar.Bsi.Executor.{parallel_executor, parallel_executor_lem, Keeps}

module _ (R : Roaring) where
  open R use {Bitmap}

  -- Does the column have one of the values?
  abbrev has_value_of : Bsi Bitmap → List ℕ → ℕ → Bool
  has_value_of b values c = let (value, found) = get_value R b c in found && elem value values

  -- The loop of `batchEqual`; `values` stands for the keys of `e.values`.
  unfoldable equal_columns : Bsi Bitmap → List ℕ → List ℕ → Bitmap → Bitmap
  unfolding get_value
  equal_columns b values [] results = results
  equal_columns b values (c ∷ cs) results =
      equal_columns b values cs (if has_value_of b values c then R.add results c else results)

  -- `batchEqual`.
  unfoldable batch_equal_of : Bsi Bitmap → List ℕ → List ℕ → Option Bitmap
  unfolding equal_columns
  batch_equal_of b values batch =
      some (equal_columns b values batch (if b.run_optimized then R.run_optimize R.new else R.new))

  -- `BatchEqual`.
  unfoldable pub batch_equal :
      ℕ → (List Bitmap → List Bitmap) → ℕ → Bsi Bitmap → List ℕ → Option Bitmap
  unfolding batch_equal_of parallel_executor
  batch_equal num_cpu arrive parallelism b values =
      parallel_executor R num_cpu arrive parallelism (batch_equal_of b values) b.e_bm

  -- A column that passes the test is added, one that does not is passed over.
  kept :
      (p : ℕ → Bool) (c d : ℕ) (rest old : Bool)
      → p d ≡ true
      → ((rest && p c) || (c == d || old)) ≡ (((c == d || rest) && p c) || old)
  kept p c d rest old h = elim (Bool-cases (c == d)) [
    | inl same ↦
        let same' : d ≡ c = ground arith in let here : p c ≡ true = rw same' at h in ground arith
    | inr other ↦ ground arith
  ]

  passed_over :
      (p : ℕ → Bool) (c d : ℕ) (rest old : Bool)
      → p d ≡ false
      → ((rest && p c) || old) ≡ (((c == d || rest) && p c) || old)
  passed_over p c d rest old h = elim (Bool-cases (c == d)) [
    | inl same ↦
        let same' : d ≡ c = ground arith in let here : p c ≡ false = rw same' at h in ground arith
    | inr other ↦ ground arith
  ]

  contains-equal_columns :
      (b : Bsi Bitmap) (values batch : List ℕ) (results : Bitmap) (c : ℕ)
      → R.contains (equal_columns b values batch results) c
        ≡ ((elem c batch && has_value_of b values c) || R.contains results c)
  unfolding equal_columns
  contains-equal_columns b values [] results c = refl
  contains-equal_columns b values (d ∷ batch) results c =
      elim (Bool-cases (has_value_of b values d)) [
        | inl found ↦
            rw
              (
                found,
                contains-equal_columns b values batch (R.add results d) c,
                R.contains-add results d c,
              )
              (kept (has_value_of b values) c d (elem c batch) (R.contains results c) found)
        | inr other ↦
            rw (other, contains-equal_columns b values batch results c)
              (passed_over (has_value_of b values) c d (elem c batch) (R.contains results c) other)
      ]

  batch_equal_of-Keeps :
      (b : Bsi Bitmap) (values : List ℕ) → Keeps R (batch_equal_of b values) (has_value_of b values)
  unfolding batch_equal_of
  batch_equal_of-Keeps b values batch =
      let empty : Bitmap = if b.run_optimized then R.run_optimize R.new else R.new in
      (
        equal_columns b values batch empty,
        refl,
        λ c.
            contains-equal_columns b values batch empty c
            ∙ ground (arith, R.contains-run_optimize R.new c, R.contains-new c),
      )

  -- `BatchEqual` returns, and its result holds exactly the columns that read as one of the values,
  -- for every number of goroutines and every order of arrival; there is at least one processor.
  pub batch_equal_lem :
      (num_cpu parallelism : ℕ) (arrive : List Bitmap → List Bitmap) (b : Bsi Bitmap)
      (values : List ℕ)
      → 0 < num_cpu
      → ((rs : List Bitmap) → Perm (arrive rs) rs)
      → (result : Bitmap) × (batch_equal num_cpu arrive parallelism b values ≡ some result)
        × ((c : ℕ)
            → c < 2 ^ 32
            → R.contains result c ≡ ((get_value R b c).1 && elem (get_value R b c).0 values))
  unfolding batch_equal
  batch_equal_lem num_cpu parallelism arrive b values cpus arrives =
      let (result, runs, holds) =
        parallel_executor_lem R num_cpu parallelism arrive (batch_equal_of b values)
          (has_value_of b values) b.e_bm cpus arrives (batch_equal_of-Keeps b values) in
      (
        result,
        runs,
        λ c small. holds c ∙ unfold get_value in (rw (mod-eq_of_lt small) (ground arith)),
      )
