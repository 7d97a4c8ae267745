-- ===== src/Bsi/Executor.antt =====
-- `parallelExecutor`: the columns of a set are cut into batches, each batch has its own goroutine,
-- and the goroutines' bitmaps are united in the order in which they arrive.
use mathlib.Core.List.{Perm, Permᴰ}
use mathlib.Core.Logic.{∥∥₁_elim}
use mathlib.Core.Bool.{Bool-set}
use native.Mathlib.Nat.{div-mul-le_self, mul_comm}
use bitstar.Base.{
  ℕ, zero, suc, ◌+◌, ◌-◌, ◌*◌, ◌/◌, ◌<◌, ◌≡◌, refl, ap, ◌∙◌, Bool, ◌&&◌, List, [], ◌∷◌, Option,
  none, some, arith, ◌==◌, if◌then◌else◌, any, elem, length, take, drop, elem-append,
  take-append-drop, take_all, length-drop,
}
use bitstar.Roaring.{Roaring}

-- The batches that `NextMany` fills: `x` columns each, and the remainder in the last one.
unfoldable pub batches : ℕ → ℕ → ℕ → List ℕ → List (List ℕ)
batches zero x remainder ids = []
batches (suc zero) x remainder ids = take (x + remainder) ids ∷ []
batches (suc (suc n)) x remainder ids = take x ids ∷ batches (suc n) x remainder (drop x ids)

-- The goroutines' results, in the order of their batches; `none` is a panic in one of them.
unfoldable pub run_batches {ℓ} :
    {A : Type ℓ} → (List ℕ → Option A) → List (List ℕ) → Option (List A)
run_batches e [] = some []
run_batches e (batch ∷ rest) = elim (e batch) [
  | none ↦ none
  | some r ↦ elim (run_batches e rest) [ none ↦ none | some rs ↦ some (r ∷ rs) ]
]

-- The number of goroutines; 0 stands for the number of processors.
abbrev pub workers : ℕ → ℕ → ℕ
workers num_cpu parallelism = if parallelism == 0 then num_cpu else parallelism

module _ (R : Roaring) where
  open R use {Bitmap}

  -- The batches of a set.
  abbrev pub set_batches : ℕ → Bitmap → List (List ℕ)
  set_batches n found_set =
      let card = R.cardinality found_set in
      let x = card / n in
      let remainder = card - x * n in batches n x remainder (R.to_array found_set)

  -- `parallelExecutor`; `arrive` orders the results as the channel hands them over.
  unfoldable pub parallel_executor :
      ℕ → (List Bitmap → List Bitmap) → ℕ → (List ℕ → Option Bitmap) → Bitmap → Option Bitmap
  unfolding batches run_batches
  parallel_executor num_cpu arrive parallelism e found_set =
      elim (run_batches e (set_batches (workers num_cpu parallelism) found_set)) [
        | none ↦ none
        | some results ↦ some (R.par_or (arrive results))
      ]

any-permᴰ {ℓ} : {A : Type ℓ} (p : A → Bool) {xs ys : List A} → Permᴰ xs ys → any p xs ≡ any p ys
any-permᴰ p Permᴰ.nil = refl
any-permᴰ p (Permᴰ.cons e h) = let rest = any-permᴰ p h in cc (ap p e, rest)
any-permᴰ p (Permᴰ.swap {a} {b} {l} e f) = ground (arith, ap p e, ap p f)
any-permᴰ p (Permᴰ.trans h k) = any-permᴰ p h ∙ any-permᴰ p k

-- The order of the elements does not matter to `any`.
pub any-perm {ℓ} : {A : Type ℓ} (p : A → Bool) {xs ys : List A} → Perm xs ys → any p xs ≡ any p ys
any-perm p h = ∥∥₁_elim h (Bool-set _ _) (any-permᴰ p)

-- The batches together hold the list.
elem-batches :
    (n x remainder : ℕ) (ids : List ℕ) (c : ℕ)
    → length ids ≡ suc n * x + remainder
    → any (λ batch. elem c batch) (batches (suc n) x remainder ids) ≡ elem c ids
unfolding batches
elem-batches zero x remainder ids c e =
    let whole = take_all (x + remainder) ids (omega arith) in ground (arith, ap (elem c) whole)
elem-batches (suc n) x remainder ids c e =
    let left = length-drop x ids in
    let rest = elem-batches n x remainder (drop x ids) c (grind (arith, left)) in
    let parts = elem-append c (take x ids) (drop x ids) in
    let joined = ap (elem c) (take-append-drop x ids) in ground (arith, rest, parts, joined)

-- Goroutines that keep the columns of their batch which pass a test.
abbrev pub Keeps : (R : Roaring) → (List ℕ → Option R.Bitmap) → (ℕ → Bool) → Type 0
Keeps R e p =
    (batch : List ℕ)
    → (r : R.Bitmap) × (e batch ≡ some r) × ((c : ℕ) → R.contains r c ≡ (elem c batch && p c))

module _ (R : Roaring) where
  open R use {Bitmap}

  run_batches_lem :
      (e : List ℕ → Option Bitmap) (p : ℕ → Bool)
      → Keeps R e p
      → (bs : List (List ℕ))
      → (rs : List Bitmap) × (run_batches e bs ≡ some rs)
        × ((c : ℕ) → any (λ r. R.contains r c) rs ≡ (any (λ b. elem c b) bs && p c))
  unfolding run_batches
  run_batches_lem e p keeps [] = ([], refl, λ c. refl)
  run_batches_lem e p keeps (b ∷ bs) =
      let (r, runs, holds) = keeps b in
      let (rs, rest, all) = run_batches_lem e p keeps bs in
      (r ∷ rs, ground (arith, runs, rest), λ c. ground (arith, holds c, all c))

  -- When each goroutine keeps the columns of its batch that pass a test, the executor returns, and
  -- the result holds exactly the columns of the set that pass it, for every number of goroutines
  -- and every order of arrival; there is at least one processor.
  pub parallel_executor_lem :
      (num_cpu parallelism : ℕ) (arrive : List Bitmap → List Bitmap) (e : List ℕ → Option Bitmap)
      (p : ℕ → Bool) (found_set : Bitmap)
      → 0 < num_cpu
      → ((rs : List Bitmap) → Perm (arrive rs) rs)
      → Keeps R e p
      → (result : Bitmap) × (parallel_executor R num_cpu arrive parallelism e found_set
          ≡ some result)
        × ((c : ℕ) → R.contains result c ≡ (R.contains found_set c && p c))
  unfolding parallel_executor
  parallel_executor_lem num_cpu parallelism arrive e p found_set cpus arrives keeps =
      let n = workers num_cpu parallelism in
      let (rs, runs, all) = run_batches_lem e p keeps (set_batches R n found_set) in
      (
        R.par_or (arrive rs),
        ground (arith, runs),
        λ c.
            R.contains-par_or (arrive rs) c
            ∙ any-perm (λ r. R.contains r c) (arrives rs)
            ∙ all c
            ∙ ap (λ t. t && p c) (elem-set_batches n (ground arith) c),
      )
    where
      elem-set_batches :
          (n : ℕ)
          → 0 < n
          → (c : ℕ) → any (λ b. elem c b) (set_batches R n found_set) ≡ R.contains found_set c
      elem-set_batches zero h c = absurd (omega arith)
      elem-set_batches (suc n) h c =
          let card = R.cardinality found_set in
          elem-batches n (card / suc n) (card - card / suc n * suc n) (R.to_array found_set) c (
            omega (
              arith,
              R.cardinality-to_array found_set,
              div-mul-le_self card (suc n),
              mul_comm (card / suc n) (suc n),
            ))
          ∙ R.elem-to_array found_set c
