-- ===== src/Index/Merge/Defs.antt =====
-- index.go: `mergeTwoIndices` and what it calls.
use bitstar.Base.{
  ℕ, zero, suc, ◌+◌, ◌%◌, ◌^◌, Bool, true, false, List, [], ◌∷◌, Option, none, some, ltb, ◌==◌,
  if◌then◌else◌, length, get_elem?, Ordering, compare_bytes, same_bytes, insert_by, entry_or,
  lookup_by, signed_rank,
}
use bitstar.Roaring.{Roaring}
use bitstar.Bsi.Defs.{Bsi, new_bsi, init_bitmaps, bit_count}
use bitstar.Keys.Defs.{EventKey, compare_time, same_key}
use bitstar.Index.Defs.{RoaringIndex, same_pair}

-- `takeA`: the earlier start first, and the larger id among equal starts.
unfoldable pub take_a : EventKey → EventKey → Bool
unfolding compare_time compare_bytes
take_a a b = elim (compare_time a.start_time b.start_time) [
  | Ordering.lt ↦ true
  | Ordering.gt ↦ false
  | Ordering.eq ↦ elim (compare_bytes a.id b.id) [ Ordering.lt ↦ false | _ ↦ true ]
]

-- `ri.keys`, `remapA` and `remapB`.
pub record MergedKeys : Type 0 where
  pub keys : List EventKey
  pub remap_a : List ℕ
  pub remap_b : List ℕ

-- A round that appends a key of `a`, or of `b`, at the position.
abbrev pub append_a : EventKey → ℕ → MergedKeys → MergedKeys
append_a key pos m = record {
  keys = key ∷ m.keys;
  remap_a = pos % 2 ^ 32 ∷ m.remap_a;
  remap_b = m.remap_b;
}

abbrev pub append_b : EventKey → ℕ → MergedKeys → MergedKeys
append_b key pos m = record {
  keys = key ∷ m.keys;
  remap_a = m.remap_a;
  remap_b = pos % 2 ^ 32 ∷ m.remap_b;
}

-- The three loops over the keys, from the position on, with fuel: each round takes a key.
unfoldable pub merge_keys : ℕ → ℕ → List EventKey → List EventKey → MergedKeys
unfolding take_a
merge_keys zero pos xs ys = record { keys = []; remap_a = []; remap_b = [] }
merge_keys (suc f) pos [] [] = record { keys = []; remap_a = []; remap_b = [] }
merge_keys (suc f) pos (x ∷ xs) [] = append_a x pos (merge_keys f (suc pos) xs [])
merge_keys (suc f) pos [] (y ∷ ys) = append_b y pos (merge_keys f (suc pos) [] ys)
merge_keys (suc f) pos (x ∷ xs) (y ∷ ys) = elim (take_a x y) [
  | true ↦ append_a x pos (merge_keys f (suc pos) xs (y ∷ ys))
  | false ↦ append_b y pos (merge_keys f (suc pos) (x ∷ xs) ys)
]

module _ (R : Roaring) where
  open R use {Bitmap}

  -- The loop of `moveBitmap` that adds one by one; `none` is a row that `remap` lacks.
  unfoldable pub move_each : List ℕ → List ℕ → Bitmap → Option Bitmap
  move_each [] remap dst = some dst
  move_each (id ∷ ids) remap dst = elim (get_elem? remap id) [
    | none ↦ none
    | some r ↦ move_each ids remap (R.add dst r)
  ]

  -- The loop over the buffer.
  unfoldable pub remap_each : List ℕ → List ℕ → Option (List ℕ)
  remap_each [] remap = some []
  remap_each (id ∷ ids) remap = elim (get_elem? remap id) [
    | none ↦ none
    | some r ↦ elim (remap_each ids remap) [ none ↦ none | some rs ↦ some (r ∷ rs) ]
  ]

  -- `moveBitmap`.
  unfoldable pub move_bitmap : Bitmap → List ℕ → Bitmap → Option Bitmap
  unfolding move_each remap_each
  move_bitmap src remap dst =
      let card = R.cardinality src in
      if card == 0
      then some dst
      else if ltb card 32
      then move_each (R.to_array src) remap dst
      else elim (remap_each (R.to_array src) remap) [
        | none ↦ none
        | some buf ↦ some (R.add_many dst buf)
      ]

  -- The loops over the tags and over the annotations of one of the indexes.
  unfoldable pub move_map {ℓ} :
      {K : Type ℓ}
      → (K → K → Bool)
      → List (K × Bitmap)
      → List ℕ
      → List (K × Bitmap)
      → Option (List (K × Bitmap))
  unfolding move_bitmap insert_by lookup_by
  move_map same [] remap out = some out
  move_map same ((k, rb) ∷ m) remap out = elim (move_bitmap rb remap (entry_or same R.new k out)) [
    | none ↦ none
    | some moved ↦ move_map same m remap (insert_by same k moved out)
  ]

  -- The loops over `indexes`.
  unfoldable pub move_indexes :
      List (EventKey × ℕ) → List ℕ → List (EventKey × ℕ) → Option (List (EventKey × ℕ))
  unfolding insert_by same_key
  move_indexes [] remap out = some out
  move_indexes ((k, old) ∷ m) remap out = elim (get_elem? remap old) [
    | none ↦ none
    | some r ↦ move_indexes m remap (insert_by same_key k r out)
  ]

  -- The loops of `mergeBSI` over the slices; a slice without a place is left out.
  unfoldable pub move_slices : List Bitmap → List ℕ → List Bitmap → Option (List Bitmap)
  unfolding move_bitmap
  move_slices [] remap ds = some ds
  move_slices (s ∷ ss) remap [] = some []
  move_slices (s ∷ ss) remap (d ∷ ds) = elim (move_bitmap s remap d) [
    | none ↦ none
    | some moved ↦ elim (move_slices ss remap ds) [ none ↦ none | some rest ↦ some (moved ∷ rest) ]
  ]

  -- `max` and `min` of an `int64`.
  abbrev pub max_signed : ℕ → ℕ → ℕ
  max_signed a b = if ltb (signed_rank a) (signed_rank b) then b else a

  abbrev pub min_signed : ℕ → ℕ → ℕ
  min_signed a b = if ltb (signed_rank b) (signed_rank a) then b else a

  -- `mergeBSI`.
  unfoldable pub merge_bsi : Bsi Bitmap → Bsi Bitmap → List ℕ → List ℕ → ℕ → Option (Bsi Bitmap)
  unfolding new_bsi init_bitmaps move_slices
  merge_bsi src_a src_b remap_a remap_b max_len =
      let max_bit_count =
        if ltb (bit_count R src_a) (bit_count R src_b)
        then bit_count R src_b
        else bit_count R src_a in
      let dst =
        init_bitmaps R
          (new_bsi R (max_signed src_b.max_value src_a.max_value)
            (min_signed src_b.min_value src_a.min_value))
          max_bit_count in
      elim (move_slices src_a.b_a remap_a dst.b_a) [
        | none ↦ none
        | some with_a ↦ elim (move_slices src_b.b_a remap_b with_a) [
          | none ↦ none
          | some with_b ↦ some (record dst {
            b_a = with_b;
            e_bm = if ltb 0 max_len then R.add_range dst.e_bm 0 max_len else dst.e_bm;
          })
        ]
      ]

  -- The two loops over `indexes`, over the tags, and over the annotations.
  unfoldable pub merge_indexes :
      List (EventKey × ℕ) → List (EventKey × ℕ) → List ℕ → List ℕ → Option (List (EventKey × ℕ))
  unfolding move_indexes
  merge_indexes a b remap_a remap_b = elim (move_indexes a remap_a []) [
    | none ↦ none
    | some out ↦ move_indexes b remap_b out
  ]

  unfoldable pub merge_maps {ℓ} :
      {K : Type ℓ}
      → (K → K → Bool)
      → List (K × Bitmap)
      → List (K × Bitmap)
      → List ℕ
      → List ℕ
      → Option (List (K × Bitmap))
  unfolding move_map
  merge_maps same a b remap_a remap_b = elim (move_map same a remap_a []) [
    | none ↦ none
    | some out ↦ move_map same b remap_b out
  ]

  -- `mergeTwoIndices` behind the loops over the keys.
  unfoldable pub merge_parts :
      MergedKeys → RoaringIndex Bitmap → RoaringIndex Bitmap → Option (RoaringIndex Bitmap)
  unfolding merge_indexes merge_maps merge_bsi same_bytes same_pair
  merge_parts m a b =
      let total = length m.keys in
      elim (merge_indexes a.indexes b.indexes m.remap_a m.remap_b) [
        | none ↦ none
        | some indexes ↦ elim (merge_maps same_bytes a.tags b.tags m.remap_a m.remap_b) [
          | none ↦ none
          | some tags ↦
              elim (merge_maps same_pair a.annotations b.annotations m.remap_a m.remap_b) [
                | none ↦ none
                | some annotations ↦
                    elim (merge_bsi a.start_time b.start_time m.remap_a m.remap_b total) [
                      | none ↦ none
                      | some starts ↦
                          elim (merge_bsi a.end_time b.end_time m.remap_a m.remap_b total) [
                            | none ↦ none
                            | some ends ↦ some (record {
                              all = if ltb 0 total then R.add_range R.new 0 total else R.new;
                              start_time = starts;
                              end_time = ends;
                              tags = tags;
                              annotations = annotations;
                              keys = m.keys;
                              indexes = indexes;
                            })
                          ]
                    ]
              ]
        ]
      ]

  -- `mergeTwoIndices`, of two indexes that are there; `none` is a panic.
  unfoldable pub merge_two_indices :
      RoaringIndex Bitmap → RoaringIndex Bitmap → Option (RoaringIndex Bitmap)
  unfolding merge_keys merge_parts
  merge_two_indices a b =
      merge_parts (merge_keys (length a.keys + length b.keys) 0 a.keys b.keys) a b
