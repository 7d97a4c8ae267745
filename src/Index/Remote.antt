-- ===== src/Index/Remote.antt =====
-- index.go: `fromYt`, over the rows that the reader of the remote table gives.
use bitstar.Base.{
  ◌≡◌, refl, Bool, false, Bytes, List, [], ◌∷◌, Option, none, some, arith, Option-cases, inl, inr,
}
use bitstar.Roaring.{Roaring}
use bitstar.Keys.Defs.{EventKey}
use bitstar.Memtable.Defs.{Event}
use bitstar.Index.Defs.{
  RoaringIndex, event_key_from_proto, new_roaring_index, index_event, from_items, from_mem_table,
}

-- What `ReadTable` gives: the bytes of the rows, a row that `Scan` refuses being `none`, and whether
-- `Err` reports an error behind them.
pub record Reader : Type 0 where
  pub rows : List (Option Bytes)
  pub failed : Bool

-- What `fromYt` ends with: the index with the error of `Err` or without, an error, or a panic.
pub data Fetched {ℓ} (A : Type ℓ) : Type ℓ where
  fetched : A → Bool → Fetched A
  refused : Fetched A
  panicked : Fetched A

module _ (R : Roaring) (unmarshal : Bytes → Option Event) where
  open R use {Bitmap}

  -- The loop over the rows; `unmarshal` is `proto.Unmarshal` into an `Event`.
  unfoldable pub index_rows :
      RoaringIndex Bitmap → List (Option Bytes) → Bool → Fetched (RoaringIndex Bitmap)
  unfolding index_event
  index_rows ri [] failed = fetched ri failed
  index_rows ri (none ∷ rows) failed = refused
  index_rows ri (some row ∷ rows) failed = elim (unmarshal row) [
    | none ↦ refused
    | some event ↦ elim (index_event R ri (some event) 0 false) [
      | none ↦ panicked
      | some ri' ↦ index_rows ri' rows failed
    ]
  ]

  -- `fromYt`; `none` is the error of `ReadTable`.
  unfoldable from_yt : Option Reader → Fetched (RoaringIndex Bitmap)
  unfolding index_rows new_roaring_index
  from_yt none = refused
  from_yt (some r) = index_rows (new_roaring_index R) r.rows r.failed

  -- The rows decode to the events.
  abbrev Decode : List (Option Bytes) → List Event → Type 0
  Decode [] [] = Unit
  Decode [] (e ∷ es) = ⊥
  Decode (none ∷ rows) es = ⊥
  Decode (some row ∷ rows) [] = ⊥
  Decode (some row ∷ rows) (e ∷ es) = (unmarshal row ≡ some e) × Decode rows es

  -- The items of a table of events that were written at timestamp 0.
  abbrev as_items : List Event → List (EventKey × Option Event)
  as_items [] = []
  as_items (e ∷ es) = (event_key_from_proto e 0 false, some e) ∷ as_items es

  abbrev fetched_or_panicked : Option (RoaringIndex Bitmap) → Bool → Fetched (RoaringIndex Bitmap)
  fetched_or_panicked none failed = panicked
  fetched_or_panicked (some ri) failed = fetched ri failed

  index_rows-from_items :
      (ri : RoaringIndex Bitmap) (rows : List (Option Bytes)) (es : List Event) (failed : Bool)
      → Decode rows es
      → index_rows ri rows failed ≡ fetched_or_panicked (from_items R ri (as_items es)) failed
  unfolding index_rows from_items event_key_from_proto
  index_rows-from_items ri [] [] failed d = refl
  index_rows-from_items ri [] (e ∷ es) failed d = absurd d
  index_rows-from_items ri (none ∷ rows) es failed d = absurd d
  index_rows-from_items ri (some row ∷ rows) [] failed d = absurd d
  index_rows-from_items ri (some row ∷ rows) (e ∷ es) failed d =
      elim (Option-cases (index_event R ri (some e) 0 false)) [
        | inl stops ↦ ground (arith, d.0, stops)
        | inr (ri', runs) ↦ ground (arith, d.0, runs, index_rows-from_items ri' rows es failed d.1)
      ]

  -- When every row of the remote table decodes, `fromYt` makes the index that `fromMemTable` makes of
  -- a table with the same events at timestamp 0, and reports the error of the reader with it.
  from_yt-from_mem_table :
      (r : Reader) (es : List Event)
      → Decode r.rows es
      → from_yt (some r) ≡ fetched_or_panicked (from_mem_table R (as_items es)) r.failed
  unfolding from_yt from_mem_table
  from_yt-from_mem_table r es d = index_rows-from_items (new_roaring_index R) r.rows es r.failed d
