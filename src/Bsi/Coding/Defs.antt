-- ===== src/Bsi/Coding/Defs.antt =====
-- `MarshalBinary` and `UnmarshalBinary`: the existence bitmap first, then the slices.
use bitstar.Base.{
  ℕ, suc, Bytes, List, [], ◌∷◌, ◌++◌, Option, none, some, ltb, if◌then◌else◌, get_elem?, set,
}
use bitstar.Roaring.{Roaring}
use bitstar.Bsi.Defs.{Bsi, bit_count}

-- What `UnmarshalBinary` ends with: the receiver, the error of a bitmap, or a panic.
pub data Loaded {ℓ} (A : Type ℓ) : Type ℓ where
  loaded : A → Loaded A
  failed : Loaded A
  panicked : Loaded A

module _ (R : Roaring) where
  open R use {Bitmap}

  -- The loop of `MarshalBinary` over the slices; `none` is the error of a bitmap.
  unfoldable pub marshal_slices : List Bitmap → Option (List (Option Bytes))
  marshal_slices [] = some []
  marshal_slices (s ∷ ss) = elim (R.marshal_binary s) [
    | none ↦ none
    | some d ↦ elim (marshal_slices ss) [ none ↦ none | some ds ↦ some (some d ∷ ds) ]
  ]

  -- `MarshalBinary`; a nil slice of bytes is `none` in the list.
  unfoldable pub marshal_binary : Bsi Bitmap → Option (List (Option Bytes))
  unfolding marshal_slices
  marshal_binary b = elim (marshal_slices b.b_a) [
    | none ↦ none
    | some ds ↦ elim (R.marshal_binary b.e_bm) [ none ↦ none | some d ↦ some (some d ∷ ds) ]
  ]

  -- A bitmap that is run-optimised when the receiver is.
  abbrev pub optimized : Bsi Bitmap → Bitmap → Bitmap
  optimized b bm = if b.run_optimized then R.run_optimize bm else bm

  -- The slice that is appended when the receiver has too few.
  abbrev with_slice : ℕ → Bsi Bitmap → Bsi Bitmap
  with_slice j b =
      if ltb (bit_count R b) (suc j) then record b { b_a = b.b_a ++ optimized b R.new ∷ [] } else b

  -- A round of the loop of `UnmarshalBinary`, for `bitData[j + 1]`.
  unfoldable pub load_slice : ℕ → Option Bytes → Bsi Bitmap → Loaded (Bsi Bitmap)
  load_slice j none b = loaded b
  load_slice j (some []) b = loaded b
  load_slice j (some (x ∷ xs)) b =
      let grown = with_slice j b in
      elim (get_elem? grown.b_a j) [
        | none ↦ panicked
        | some old ↦ elim (R.unmarshal_binary (x ∷ xs)) [
          | none ↦ failed
          | some bm ↦ loaded (record grown { b_a = set grown.b_a j (optimized b bm) })
        ]
      ]

  unfoldable pub load_slices : ℕ → List (Option Bytes) → Bsi Bitmap → Loaded (Bsi Bitmap)
  unfolding load_slice
  load_slices j [] b = loaded b
  load_slices j (d ∷ ds) b = elim (load_slice j d b) [
    | loaded b' ↦ load_slices (suc j) ds b'
    | failed ↦ failed
    | panicked ↦ panicked
  ]

  -- The part for `bitData[0]`.
  unfoldable pub load_existence : Option Bytes → Bsi Bitmap → Loaded (Bsi Bitmap)
  load_existence none b = loaded (record b { e_bm = optimized b R.new })
  load_existence (some d) b = elim (R.unmarshal_binary d) [
    | none ↦ failed
    | some bm ↦ loaded (record b { e_bm = optimized b bm })
  ]

  -- `UnmarshalBinary`; without any element `bitData[0]` is out of range.
  unfoldable pub unmarshal_binary : Bsi Bitmap → List (Option Bytes) → Loaded (Bsi Bitmap)
  unfolding load_slices load_existence
  unmarshal_binary b [] = panicked
  unmarshal_binary b (d ∷ ds) = elim (load_slices 0 ds b) [
    | loaded b' ↦ load_existence d b'
    | failed ↦ failed
    | panicked ↦ panicked
  ]
