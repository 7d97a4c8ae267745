-- ===== src/Bsi/Transpose.antt =====
-- bsi/bsi.go: `Transpose`, `IntersectAndTranspose` and `transpose`.
use mathlib.Core.List.{Perm}
use native.Mathlib.Nat.{div-mul-le_self, mul_comm}
use bitstar.Base.{
  ℕ, zero, suc, ◌+◌, ◌-◌, ◌*◌, ◌/◌, ◌^◌, ◌%◌, ◌<◌, ◌≡◌, refl, ap, ◌∙◌, Bool, ◌&&◌, ◌||◌, List, [],
  ◌∷◌, Option, none, some, arith, if◌then◌else◌, ◌==◌, any, any-append, take, drop, take_all,
  take-append-drop, length-drop, length, Bool-cases, inl, inr,
}
use bitstar.Roaring.{Roaring}
use bitstar.Bsi.Defs.{Bsi, get_value}
use bitstar.Bsi.Executor.{batches, run_batches, workers, set_batches, parallel_executor, any-perm}

-- The batches together are the list.
any-batches :
    (p : ℕ → Bool) (n x remainder : ℕ) (ids : List ℕ)
    → length ids ≡ suc n * x + remainder
    → any (any p) (batches (suc n) x remainder ids) ≡ any p ids
unfolding batches
any-batches p zero x remainder ids e =
    let whole = take_all (x + remainder) ids (omega arith) in ground (arith, ap (any p) whole)
any-batches p (suc n) x remainder ids e =
    let left = length-drop x ids in
    let rest = any-batches p n x remainder (drop x ids) (grind (arith, left)) in
    let parts = any-append p (take x ids) (drop x ids) in
    let joined = ap (any p) (take-append-drop x ids) in ground (arith, rest, parts, joined)

module _ (R : Roaring) where
  open R use {Bitmap}

  -- The loop of `transpose`.
  unfoldable add_values : Bsi Bitmap → List ℕ → Bitmap → Bitmap
  unfolding get_value
  add_values b [] results = results
  add_values b (c ∷ cs) results =
      let (value, found) = get_value R b c in
      add_values b cs (if found then R.add results (value % 2 ^ 32) else results)

  -- `transpose`.
  unfoldable transpose_of : Bsi Bitmap → List ℕ → Option Bitmap
  unfolding add_values
  transpose_of b batch =
      some (add_values b batch (if b.run_optimized then R.run_optimize R.new else R.new))

  -- `IntersectAndTranspose`; `none` is a nil set.
  unfoldable intersect_and_transpose :
      ℕ → (List Bitmap → List Bitmap) → ℕ → Bsi Bitmap → Option Bitmap → Option Bitmap
  unfolding transpose_of parallel_executor
  intersect_and_transpose num_cpu arrive parallelism b found_set =
      let columns : Bitmap = elim found_set [ none ↦ b.e_bm | some s ↦ s ] in
      parallel_executor R num_cpu arrive parallelism (transpose_of b) columns

  -- `Transpose`.
  unfoldable transpose : ℕ → (List Bitmap → List Bitmap) → Bsi Bitmap → Option Bitmap
  unfolding intersect_and_transpose
  transpose num_cpu arrive b = intersect_and_transpose num_cpu arrive 0 b (some b.e_bm)

  -- Does the column exist with a value whose low 32 bits are these?
  abbrev reads_as : Bsi Bitmap → ℕ → ℕ → Bool
  reads_as b v c = (get_value R b c).1 && v == (get_value R b c).0 % 2 ^ 32

  contains-add_values :
      (b : Bsi Bitmap) (batch : List ℕ) (results : Bitmap) (v : ℕ)
      → R.contains (add_values b batch results) v
        ≡ (any (reads_as b v) batch || R.contains results v)
  unfolding add_values
  contains-add_values b [] results v = refl
  contains-add_values b (c ∷ batch) results v = elim (Bool-cases (get_value R b c).1) [
    | inl found ↦
        let value = (get_value R b c).0 % 2 ^ 32 in
        rw (found, contains-add_values b batch (R.add results value) v)
          (ground (arith, R.contains-add results value v))
    | inr missing ↦ rw (missing, contains-add_values b batch results v) refl
  ]

  run_batches-transpose_of :
      (b : Bsi Bitmap) (bs : List (List ℕ))
      → (rs : List Bitmap) × (run_batches (transpose_of b) bs ≡ some rs)
        × ((v : ℕ) → any (λ r. R.contains r v) rs ≡ any (any (reads_as b v)) bs)
  unfolding run_batches transpose_of
  run_batches-transpose_of b [] = ([], refl, λ v. refl)
  run_batches-transpose_of b (batch ∷ bs) =
      let empty : Bitmap = if b.run_optimized then R.run_optimize R.new else R.new in
      let (rs, runs, all) = run_batches-transpose_of b bs in
      (
        add_values b batch empty ∷ rs,
        ground (arith, runs),
        λ v. ground (
          arith,
          all v,
          contains-add_values b batch empty v,
          R.contains-run_optimize R.new v,
          R.contains-new v,
        ),
      )

  any-set_batches :
      (p : ℕ → Bool) (n : ℕ) (s : Bitmap)
      → 0 < n
      → any (any p) (set_batches R n s) ≡ any p (R.to_array s)
  any-set_batches p zero s h = absurd (omega arith)
  any-set_batches p (suc n) s h =
      let card = R.cardinality s in
      any-batches p n (card / suc n) (card - card / suc n * suc n) (R.to_array s) (
        omega (
          arith,
          R.cardinality-to_array s,
          div-mul-le_self card (suc n),
          mul_comm (card / suc n) (suc n),
        ))

  -- `IntersectAndTranspose` returns, and its result holds exactly the values of the columns of the
  -- set, cut to 32 bits, for every number of goroutines and every order of arrival; there is at least
  -- one processor.
  intersect_and_transpose_lem :
      (num_cpu parallelism : ℕ) (arrive : List Bitmap → List Bitmap) (b : Bsi Bitmap)
      (found_set : Bitmap)
      → 0 < num_cpu
      → ((rs : List Bitmap) → Perm (arrive rs) rs)
      → (result : Bitmap) × (intersect_and_transpose num_cpu arrive parallelism b (some found_set)
          ≡ some result)
        × ((v : ℕ) → R.contains result v ≡ any (reads_as b v) (R.to_array found_set))
  unfolding intersect_and_transpose parallel_executor
  intersect_and_transpose_lem num_cpu parallelism arrive b found_set cpus arrives =
      let n = workers num_cpu parallelism in
      let (rs, runs, all) = run_batches-transpose_of b (set_batches R n found_set) in
      (
        R.par_or (arrive rs),
        ground (arith, runs),
        λ v.
            R.contains-par_or (arrive rs) v
            ∙ any-perm (λ r. R.contains r v) (arrives rs)
            ∙ all v
            ∙ any-set_batches (reads_as b v) n found_set (ground arith),
      )
