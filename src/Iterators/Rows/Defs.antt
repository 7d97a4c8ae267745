-- ===== src/Iterators/Rows/Defs.antt =====
-- `IndexIterator` with `NewIndexIterator`, `Valid`, `Next`, `Value`, `Seek` and `advance`.
use bitstar.Base.{
  ℕ, suc, zero, Bytes, Bool, true, false, ◌&&◌, not, List, [], ◌∷◌, Option, none, some, Ordering,
  ltb, leb, length, if◌then◌else◌, get_elem?, same_bytes,
}
use bitstar.Roaring.{Roaring}
use bitstar.Keys.Defs.{EventKey, compare_event_key_timestamp}
use bitstar.Index.Defs.{RoaringIndex}

module _ (R : Roaring) where
  open R use {Bitmap}

  -- `IndexIterator`; `it` has the numbers that the iterator over the posting has left.
  pub record IndexIterator : Type 0 where
    pub ri : RoaringIndex Bitmap
    pub posting : Bitmap
    pub it : List ℕ
    pub index : ℕ
    pub next_idx : ℕ
    pub has_next : Bool
    pub last_emitted_id : Bytes
    pub has_emitted : Bool
    pub end : Bool
    pub ts : ℕ

  -- The two tests of `advance` that pass over a row.
  unfoldable pub is_passed : IndexIterator → EventKey → Bool
  unfolding same_bytes
  is_passed ii key =
      if ltb ii.ts key.timestamp
      then true
      else ii.has_emitted && same_bytes ii.last_emitted_id key.id && leb key.timestamp ii.ts

  -- The loop of `advance` over the numbers that are left; `none` is a row beyond the keys.
  unfoldable pub advance_over : IndexIterator → List ℕ → Option IndexIterator
  unfolding is_passed
  advance_over ii [] = some (record ii { it = [] })
  advance_over ii (idx ∷ rest) = elim (get_elem? ii.ri.keys idx) [
    | none ↦ none
    | some key ↦ elim (is_passed ii key) [
      | true ↦ advance_over ii rest
      | false ↦ some (record ii { it = rest; next_idx = idx; has_next = true })
    ]
  ]

  -- `advance`.
  unfoldable pub advance : IndexIterator → Option IndexIterator
  unfolding advance_over
  advance ii = advance_over (record ii { has_next = false }) ii.it

  -- `NewIndexIterator`.
  unfoldable pub new_index_iterator : RoaringIndex Bitmap → Bitmap → ℕ → Option IndexIterator
  unfolding advance
  new_index_iterator ri posting ts = advance (record {
    ri = ri;
    posting = posting;
    it = R.to_array posting;
    index = 0;
    next_idx = 0;
    has_next = false;
    last_emitted_id = [];
    has_emitted = false;
    end = false;
    ts = ts;
  })

  -- `Valid`.
  abbrev rows_valid : IndexIterator → Bool
  rows_valid ii = not ii.end

  -- `Next`.
  unfoldable pub rows_next : IndexIterator → Option (IndexIterator × Bool)
  unfolding advance
  rows_next ii = elim ii.end [
    | true ↦ some (ii, false)
    | false ↦ elim ii.has_next [
      | false ↦ some (record ii { end = true }, false)
      | true ↦ elim (get_elem? ii.ri.keys ii.next_idx) [
        | none ↦ none
        | some key ↦
            elim (advance
              (record ii { index = ii.next_idx; last_emitted_id = key.id; has_emitted = true })) [
                | none ↦ none
                | some ii' ↦ some (ii', true)
              ]
      ]
    ]
  ]

  -- `Value`.
  unfoldable pub rows_value : IndexIterator → Option EventKey
  rows_value ii = get_elem? ii.ri.keys ii.index

  -- `Seek`, with `sort.Search` and `AdvanceIfNeeded`.
  unfoldable rows_seek :
      (ℕ → (ℕ → Bool) → ℕ) → (List ℕ → ℕ → List ℕ) → IndexIterator → EventKey → Option IndexIterator
  unfolding advance compare_event_key_timestamp
  rows_seek search advance_if_needed ii key =
      let target = search (length ii.ri.keys) (λ i. elim (get_elem? ii.ri.keys i) [
        | none ↦ false
        | some k ↦ elim (compare_event_key_timestamp k key) [ Ordering.lt ↦ false | _ ↦ true ]
      ]) in
      let reset = record ii { end = false; has_next = false; has_emitted = false } in
      if leb (length ii.ri.keys) target
      then some (record reset { end = true })
      else advance (record reset { it = advance_if_needed (R.to_array ii.posting) target })

  -- The loop `for iter.Next() { iter.Value() }`, on fuel.
  unfoldable pub drain : ℕ → IndexIterator → Option (List EventKey)
  unfolding rows_next rows_value
  drain zero ii = some []
  drain (suc f) ii = elim (rows_next ii) [
    | none ↦ none
    | some (ii', more) ↦ elim more [
      | false ↦ some []
      | true ↦ elim (rows_value ii') [
        | none ↦ none
        | some key ↦ elim (drain f ii') [ none ↦ none | some keys ↦ some (key ∷ keys) ]
      ]
    ]
  ]
