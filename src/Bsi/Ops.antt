-- ===== src/Bsi/Ops.antt =====
-- bsi/bsi.go: the calls on whole indexes. `ParOr`, `ClearValues`, `NewBSIRetainSet`, `Clone`,
-- `Add`, `Increment`, and the coding as byte strings.
use bitstar.Base.{
  ℕ, zero, suc, ◌+◌, ◌-◌, true, false, List, [], ◌∷◌, ◌++◌, map, Option, none, some, ltb, leb,
  if◌then◌else◌, length, get_elem?, set, replicate,
}
use bitstar.Roaring.{Roaring}
use bitstar.Bsi.Defs.{Bsi, new_bsi}

-- Fuel for `addDigit`: a carry goes at most one slice beyond the last.
abbrev pub digit_fuel {ℓ} : {A : Type ℓ} → List A → ℕ
digit_fuel slices = length slices + 2

module _ (R : Roaring) where
  open R use {Bitmap}

  -- The loop of `ParOr` that finds the largest number of slices.
  unfoldable pub most_slices : ℕ → List (Bsi Bitmap) → ℕ
  most_slices bits [] = bits
  most_slices bits (x ∷ xs) =
      most_slices (if ltb bits (length x.b_a) then length x.b_a else bits) xs

  -- `newBm`.
  abbrev pub fresh : Bsi Bitmap → Bitmap
  fresh b = if b.run_optimized then R.run_optimize R.new else R.new

  -- The loop over the given indexes that collects `a[i]`: one without slice `i` drops what was
  -- collected before it.
  unfoldable pub collect_slices : Bitmap → ℕ → List Bitmap → List (Bsi Bitmap) → List Bitmap
  collect_slices empty i collected [] = collected
  collect_slices empty i collected (x ∷ xs) =
      collect_slices empty i
        (elim (get_elem? x.b_a i) [ some s ↦ collected ++ s ∷ [] | none ↦ empty ∷ [] ]) xs

  -- The goroutines that merge slice `i` and those above it.
  unfoldable pub merge_slices : Bitmap → ℕ → List Bitmap → List (Bsi Bitmap) → List Bitmap
  unfolding collect_slices
  merge_slices empty i [] bsis = []
  merge_slices empty i (s ∷ ss) bsis =
      R.par_or (s ∷ collect_slices empty i [] bsis) ∷ merge_slices empty (suc i) ss bsis

  -- `ParOr`.
  unfoldable pub par_or : Bsi Bitmap → List (Bsi Bitmap) → Bsi Bitmap
  unfolding most_slices merge_slices
  par_or b bsis =
      let bits = most_slices (length b.b_a) bsis in
      let enough = b.b_a ++ replicate (bits - length b.b_a) (fresh b) in
      record b {
        b_a = merge_slices (fresh b) 0 enough bsis;
        e_bm = R.par_or (b.e_bm ∷ map (λ x. x.e_bm) bsis);
      }

  -- `ClearBits`.
  unfoldable clear_bits : Bitmap → Bitmap → Bitmap
  clear_bits found_set target = R.and_not target found_set

  -- `ClearValues`.
  unfoldable pub clear_values : Bsi Bitmap → Bitmap → Bsi Bitmap
  clear_values b found_set = record b {
    e_bm = R.and_not b.e_bm found_set;
    b_a = map (λ s. R.and_not s found_set) b.b_a;
  }

  -- `NewBSIRetainSet`.
  unfoldable pub new_bsi_retain_set : Bsi Bitmap → Bitmap → Bsi Bitmap
  unfolding new_bsi
  new_bsi_retain_set b found_set =
      let fresh_bsi = new_bsi R b.max_value b.min_value in
      record fresh_bsi { b_a = map (λ s. R.and s found_set) b.b_a; e_bm = R.and b.e_bm found_set }

  -- `Clone`.
  unfoldable pub clone : Bsi Bitmap → Bsi Bitmap
  unfolding new_bsi_retain_set
  clone b = new_bsi_retain_set b b.e_bm

  -- `addDigit`, with fuel: it adds the set at bit `i` and carries. `none` is a panic, or the end
  -- of the fuel.
  unfoldable pub add_digit : ℕ → List Bitmap → Bitmap → ℕ → Option (List Bitmap)
  add_digit zero slices found_set i = none
  add_digit (suc fuel) slices found_set i =
      let enough = if leb (length slices) i then slices ++ R.new ∷ [] else slices in
      elim (get_elem? enough i) [
        | none ↦ none
        | some s ↦
            let carry = R.and s found_set in
            let added = set enough i (R.xor s found_set) in
            elim (R.is_empty carry) [
              | true ↦ some added
              | false ↦
                  add_digit fuel (if leb (length added) (i + 1) then added ++ R.new ∷ [] else added)
                    carry (i + 1)
            ]
      ]

  -- The loop of `Add` over the other index's slices.
  unfoldable pub add_digits : List Bitmap → List Bitmap → ℕ → Option (List Bitmap)
  unfolding add_digit
  add_digits slices [] i = some slices
  add_digits slices (d ∷ ds) i = elim (add_digit (digit_fuel slices) slices d i) [
    | none ↦ none
    | some added ↦ add_digits added ds (suc i)
  ]

  -- `Add`.
  unfoldable pub add : Bsi Bitmap → Bsi Bitmap → Option (Bsi Bitmap)
  unfolding add_digits
  add b other = elim (add_digits b.b_a other.b_a 0) [
    | none ↦ none
    | some slices ↦ some (record b { e_bm = R.or b.e_bm other.e_bm; b_a = slices })
  ]

  -- `Increment`; a missing set stands for the existence bitmap.
  unfoldable pub increment : Bsi Bitmap → Option Bitmap → Option (Bsi Bitmap)
  unfolding add_digit
  increment b found_set =
      let found : Bitmap = elim found_set [ none ↦ b.e_bm | some f ↦ f ] in
      elim (add_digit (digit_fuel b.b_a) b.b_a found 0) [
        | none ↦ none
        | some slices ↦ some (record b { b_a = slices; e_bm = R.or b.e_bm found })
      ]

  -- `IncrementAll`.
  unfoldable increment_all : Bsi Bitmap → Option (Bsi Bitmap)
  unfolding increment
  increment_all b = increment b (some b.e_bm)
