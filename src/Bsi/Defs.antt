-- ===== src/Bsi/Defs.antt =====
-- bsi/bsi.go: the state of a bit-sliced index, and the calls that read and write single values.
-- An `int64` and a `uint64` are bit patterns, numbers below 2 ^ 64.
use bitstar.Base.{
  ℕ, zero, suc, ◌-◌, ◌%◌, ◌^◌, Bool, true, false, ◌&&◌, List, [], ◌∷◌, ◌++◌, map, Option, none,
  some, ltb, ◌==◌, if◌then◌else◌, length, get_elem?, set, replicate, bit, set_bit, len64,
}
use bitstar.Roaring.{Roaring}

-- `BSI`, over the type of its bitmaps.
pub record Bsi (Bitmap : Type 0) : Type 0 where
  pub b_a : List Bitmap
  pub e_bm : Bitmap
  pub max_value : ℕ
  pub min_value : ℕ
  pub run_optimized : Bool

-- `uint32(columnID)`.
abbrev pub column : ℕ → ℕ
column id = id % 2 ^ 32

module _ (R : Roaring) where
  open R use {Bitmap}

  -- `NewBSI`.
  unfoldable pub new_bsi : ℕ → ℕ → Bsi Bitmap
  new_bsi max_value min_value =
      let bitsz =
        if ltb (len64 min_value) (len64 max_value) then len64 max_value else len64 min_value in
      record {
        b_a = replicate bitsz R.new;
        e_bm = R.new;
        max_value = max_value;
        min_value = min_value;
        run_optimized = false;
      }

  -- `NewDefaultBSI`.
  unfoldable pub new_default_bsi : Bsi Bitmap
  unfolding new_bsi
  new_default_bsi = new_bsi 0 0

  -- `RunOptimize`.
  unfoldable pub run_optimize : Bsi Bitmap → Bsi Bitmap
  run_optimize b = record b {
    e_bm = R.run_optimize b.e_bm;
    b_a = map R.run_optimize b.b_a;
    run_optimized = true;
  }

  -- `ValueExists`.
  unfoldable value_exists : Bsi Bitmap → ℕ → Bool
  value_exists b column_id = R.contains b.e_bm (column column_id)

  -- `GetCardinality`.
  unfoldable get_cardinality : Bsi Bitmap → ℕ
  get_cardinality b = R.cardinality b.e_bm

  -- `BitCount`.
  abbrev pub bit_count : Bsi Bitmap → ℕ
  bit_count b = length b.b_a

  -- One round of the loop that appends slices, at the counter's value; `none` is the panic of
  -- `b.bA[i]` out of range, which only a run-optimised index meets.
  unfoldable pub append_slice : ℕ → Bsi Bitmap → Option (Bsi Bitmap)
  append_slice i b =
      let appended = b.b_a ++ R.new ∷ [] in
      if b.run_optimized
      then elim (get_elem? appended i) [
        | none ↦ none
        | some bm ↦ some (record b { b_a = set appended i (R.run_optimize bm) })
      ]
      else some (record b { b_a = appended })

  -- The loop, whose counter falls to 0.
  unfoldable pub grow : ℕ → Bsi Bitmap → Option (Bsi Bitmap)
  unfolding append_slice
  grow zero b = some b
  grow (suc i) b = elim (append_slice (suc i) b) [ none ↦ none | some longer ↦ grow i longer ]

  -- With both limits 0 the slices grow to the length of the value.
  unfoldable pub auto_size : Bsi Bitmap → ℕ → Option (Bsi Bitmap)
  auto_size b value =
      if b.max_value == 0 && b.min_value == 0 then grow (len64 value - bit_count b) b else some b

  -- The loop of `SetValue` over the slices, from bit `i` on.
  unfoldable pub write_bits : Bool → ℕ → ℕ → ℕ → List Bitmap → List Bitmap
  write_bits exists value c i [] = []
  write_bits exists value c i (s ∷ ss) =
      (if bit value i then R.add s c else if exists then R.remove s c else s)
      ∷ write_bits exists value c (suc i) ss

  -- `SetValue`.
  unfoldable pub set_value : Bsi Bitmap → ℕ → ℕ → Option (Bsi Bitmap)
  set_value b column_id value = elim (auto_size b value) [
    | none ↦ none
    | some sized ↦ some (record sized {
      b_a =
          write_bits (R.contains sized.e_bm (column column_id)) value (column column_id) 0
            sized.b_a;
      e_bm = R.add sized.e_bm (column column_id);
    })
  ]

  -- The loop of `SetMany` over the slices, from bit `i` on.
  unfoldable pub write_many : Bitmap → ℕ → ℕ → List Bitmap → List Bitmap
  write_many found_set value i [] = []
  write_many found_set value i (s ∷ ss) =
      (if bit value i then R.or s found_set else R.and_not s found_set)
      ∷ write_many found_set value (suc i) ss

  -- `SetMany`.
  unfoldable pub set_many : Bsi Bitmap → Bitmap → ℕ → Option (Bsi Bitmap)
  set_many b found_set value = elim (auto_size b value) [
    | none ↦ none
    | some sized ↦ some (record sized {
      b_a = write_many found_set value 0 sized.b_a;
      e_bm = R.or sized.e_bm found_set;
    })
  ]

  -- The loop of `GetValue` over the slices, from bit `i` on.
  unfoldable pub read_bits : ℕ → ℕ → List Bitmap → ℕ → ℕ
  read_bits c i [] value = value
  read_bits c i (s ∷ ss) value =
      read_bits c (suc i) ss (if R.contains s c then set_bit value i else value)

  -- `GetValue`.
  unfoldable pub get_value : Bsi Bitmap → ℕ → ℕ × Bool
  get_value b column_id =
      if R.contains b.e_bm (column column_id)
      then (read_bits (column column_id) 0 b.b_a 0, true)
      else (0, false)

  -- `InitBitmaps`.
  unfoldable pub init_bitmaps : Bsi Bitmap → ℕ → Bsi Bitmap
  init_bitmaps b count = record b { b_a = replicate count R.new }
