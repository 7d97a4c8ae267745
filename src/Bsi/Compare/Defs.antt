-- ===== src/Bsi/Compare/Defs.antt =====
-- `CompareValue` and `compareValue`: the comparison of each column's value with one or two bounds,
-- bit by bit from the top.
use bitstar.Base.{
  ℕ, zero, suc, ◌-◌, Bool, true, false, not, same, differ, ◌&&◌, ◌||◌, List, [], ◌∷◌, Option, none,
  some, ltb, ◌==◌, if◌then◌else◌, get_elem?, bit, negate, len64,
}
use bitstar.Roaring.{Roaring}
use bitstar.Bsi.Defs.{Bsi, bit_count}
use bitstar.Bsi.Executor.{parallel_executor}

-- `Operation`.
pub data Operation : Type 0 where
  lt le eq ge gt range min max : Operation

abbrev pub is_range : Operation → Bool
is_range Operation.range = true
is_range _ = false

-- `e.op == LT || e.op == LE`.
abbrev pub is_below : Operation → Bool
is_below Operation.lt = true
is_below Operation.le = true
is_below _ = false

-- `e.op == GT || e.op == GE || e.op == RANGE`.
abbrev pub is_above : Operation → Bool
is_above Operation.gt = true
is_above Operation.ge = true
is_above Operation.range = true
is_above _ = false

-- The variables of the loop over the bits.
pub record Scan : Type 0 where
  pub eq1 : Bool
  pub eq2 : Bool
  pub lt1 : Bool
  pub lt2 : Bool
  pub gt1 : Bool

abbrev pub start_scan : Scan
start_scan = record { eq1 = true; eq2 = true; lt1 = false; lt2 = false; gt1 = false }

-- What the loop reads: the operation, the bounds to compare with, and the signs.
pub record Bounds : Type 0 where
  pub op : Operation
  pub comp_start_value : ℕ
  pub comp_end_value : ℕ
  pub start_is_negative : Bool
  pub end_is_negative : Bool
  pub is_negative : Bool

-- A round ends by `break` or goes on.
pub data Flow : Type 0 where
  stop go : Scan → Flow

-- The first half of a round: the bit of the column against the bit of `compStartValue`.
unfoldable scan_start : Bounds → ℕ → Bool → Scan → Flow
scan_start t j slice_contains_bit s =
    let below = record s {
      gt1 = if is_above t.op && (t.start_is_negative && not t.is_negative) then true else s.gt1;
      lt1 =
          if is_below t.op && (not t.start_is_negative || same t.start_is_negative t.is_negative)
          then true
          else s.lt1;
      eq1 = false;
    } in
    let above = record s {
      lt1 = if is_below t.op && (t.is_negative && not t.start_is_negative) then true else s.lt1;
      gt1 =
          if is_above t.op && (t.start_is_negative || same t.start_is_negative t.is_negative)
          then true
          else s.gt1;
      eq1 = false;
    } in
    if bit t.comp_start_value j
    then if not slice_contains_bit && s.eq1 then stop below else go s
    else if slice_contains_bit && s.eq1
    then if is_range t.op then go above else stop above
    else go s

-- The second half, for `RANGE`: the bit of the column against the bit of `compEndValue`.
unfoldable scan_end : Bounds → ℕ → Bool → Scan → Flow
scan_end t j slice_contains_bit s =
    let below = record s {
      lt2 = if not t.end_is_negative || same t.end_is_negative t.is_negative then true else s.lt2;
      eq2 = false;
    } in
    let above = record s {
      lt2 = if t.is_negative && not t.end_is_negative then true else s.lt2;
      eq2 = false;
    } in
    if is_range t.op
    then if bit t.comp_end_value j
      then if not slice_contains_bit && s.eq2
        then if t.start_is_negative && not t.end_is_negative then stop below else go below
        else go s
      else if slice_contains_bit && s.eq2
      then stop above
      else go s
    else go s

-- The final `switch`: is the column added? `none` is the panic of an unknown operation.
unfoldable pub decision : Bounds → Scan → Option Bool
decision t s = elim t.op [
  | Operation.lt ↦ some s.lt1
  | Operation.le ↦
      some (s.lt1 || (s.eq1 && (not t.start_is_negative || (t.start_is_negative && t.is_negative))))
  | Operation.eq ↦ some s.eq1
  | Operation.ge ↦
      some (
        s.gt1 || (s.eq1 && (t.start_is_negative || (not t.start_is_negative && not t.is_negative))))
  | Operation.gt ↦ some s.gt1
  | Operation.range ↦ some ((s.eq1 || s.gt1) && (s.eq2 || s.lt2))
  | _ ↦ none
]

module _ (R : Roaring) where
  open R use {Bitmap}

  -- Does slice `j` hold the column? A slice that is not there does not.
  abbrev pub slice_contains : List Bitmap → ℕ → ℕ → Bool
  slice_contains slices c j = elim (get_elem? slices j) [ none ↦ false | some s ↦ R.contains s c ]

  -- The loop over the bits below `j`, from the top.
  unfoldable pub scan : Bounds → List Bitmap → ℕ → ℕ → Scan → Scan
  unfolding scan_start scan_end
  scan t slices c zero s = s
  scan t slices c (suc j) s =
      let here = slice_contains slices c j in
      elim (scan_start t j here s) [
        | stop s₁ ↦ s₁
        | go s₁ ↦ elim (scan_end t j here s₁) [ stop s₂ ↦ s₂ | go s₂ ↦ scan t slices c j s₂ ]
      ]

  -- The number of bits to look at.
  unfoldable pub scan_width : Bsi Bitmap → Operation → ℕ → ℕ → ℕ
  scan_width b op value_or_start end_value =
      let bound = if is_range op then end_value else value_or_start in
      if ltb (bit_count R b) (len64 bound) then len64 bound else bit_count R b

  -- The bounds for a column, at the width `x`: with 64 bits the top one is a sign, and a bound of
  -- the other sign is negated.
  unfoldable pub column_bounds : Bsi Bitmap → Operation → ℕ → ℕ → ℕ → ℕ → Bounds
  column_bounds b op value_or_start end_value x c =
      let start_is_negative = (x == 64) && bit value_or_start (x - 1) in
      let end_is_negative = (x == 64) && bit end_value (x - 1) in
      let is_negative = (x == 64) && slice_contains b.b_a c (x - 1) in
      record {
        op = op;
        comp_start_value =
            if differ is_negative start_is_negative then negate value_or_start else value_or_start;
        comp_end_value = if differ is_negative end_is_negative then negate end_value else end_value;
        start_is_negative = start_is_negative;
        end_is_negative = end_is_negative;
        is_negative = is_negative;
      }

  -- The body of the loop over the batch, for one column.
  unfoldable pub compare_column : Bsi Bitmap → Operation → ℕ → ℕ → ℕ → Option Bool
  unfolding scan decision scan_width column_bounds
  compare_column b op value_or_start end_value c =
      let x = scan_width b op value_or_start end_value in
      let t = column_bounds b op value_or_start end_value x c in
      decision t (scan t b.b_a c (if x == 64 then x - 1 else x) start_scan)

  -- The loop over the batch.
  unfoldable pub compare_columns : (ℕ → Option Bool) → List ℕ → Bitmap → Option Bitmap
  compare_columns test [] results = some results
  compare_columns test (c ∷ cs) results = elim (test c) [
    | none ↦ none
    | some added ↦ compare_columns test cs (if added then R.add results c else results)
  ]

  -- `compareValue`, on a batch.
  unfoldable pub compare_batch : Bsi Bitmap → Operation → ℕ → ℕ → List ℕ → Option Bitmap
  unfolding compare_column compare_columns
  compare_batch b op value_or_start end_value batch =
      compare_columns (compare_column b op value_or_start end_value) batch
        (if b.run_optimized then R.run_optimize R.new else R.new)

  -- `CompareValue`; a missing set stands for the existence bitmap.
  unfoldable pub compare_value :
      ℕ
      → (List Bitmap → List Bitmap)
      → Bsi Bitmap
      → ℕ
      → Operation
      → ℕ
      → ℕ
      → Option Bitmap
      → Option Bitmap
  unfolding compare_batch parallel_executor
  compare_value num_cpu arrive b parallelism op value_or_start end_value found_set =
      parallel_executor R num_cpu arrive parallelism (compare_batch b op value_or_start end_value)
        (elim found_set [ none ↦ b.e_bm | some f ↦ f ])
