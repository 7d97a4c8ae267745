-- ===== src/Index/Returns.antt =====
-- `fromMemTable` returns.
use bitstar.Base.{
  ℕ, ◌%◌, ◌^◌, ◌≡◌, refl, Bool, true, false, List, [], ◌∷◌, ◌++◌, Option, none, some, arith, length,
  insert_by, any, ◌↔◌,
}
use bitstar.Roaring.{Roaring}
use bitstar.Bsi.Plain.{set_value-ReturnsPlain}
use bitstar.Keys.Defs.{EventKey, unix, same_key}
use bitstar.Bsi.Defs.{set_value, new_default_bsi, new_bsi}
use bitstar.Memtable.Defs.{Event}
use bitstar.Index.Defs.{
  RoaringIndex, event_key_from_proto, new_roaring_index, add_tags, add_annotations, index_event,
  from_items, from_mem_table,
}

-- Is the item without an event, as that of a deletion is?
abbrev pub is_tombstone : EventKey × Option Event → Bool
is_tombstone (key, none) = true
is_tombstone (key, some e) = false

module _ (R : Roaring) where
  open R use {Bitmap}

  abbrev pub BothPlain : RoaringIndex Bitmap → Type 0
  BothPlain ri = (ri.start_time.run_optimized ≡ false) × (ri.end_time.run_optimized ≡ false)

  -- `indexEvent` of an event returns, with these parts.
  pub index_event_returns :
      (ri : RoaringIndex Bitmap) (e : Event) (ts : ℕ) (is_deleted : Bool)
      → BothPlain ri
      → (ri' : RoaringIndex Bitmap) × (index_event R ri (some e) ts is_deleted ≡ some ri')
        × BothPlain ri'
        × (set_value R ri.start_time (length ri.keys % 2 ^ 32) (unix e.start_time)
            ≡ some ri'.start_time)
        × (set_value R ri.end_time (length ri.keys % 2 ^ 32) (unix e.end_time) ≡ some ri'.end_time)
        × (ri'.tags ≡ add_tags R e.tags (length ri.keys % 2 ^ 32) ri.tags)
        × (ri'.annotations
            ≡ add_annotations R e.annotations (length ri.keys % 2 ^ 32) ri.annotations)
        × ((key : EventKey) × (key ≡ record (event_key_from_proto e ts is_deleted) { local = true })
            × (ri'.keys ≡ ri.keys ++ key ∷ [])
            × (ri'.indexes ≡ insert_by same_key key (length ri.keys % 2 ^ 32) ri.indexes))
  unfolding index_event
  index_event_returns ri e ts is_deleted plain =
      let row = length ri.keys % 2 ^ 32 in
      let (starts, run, start_plain) =
        set_value-ReturnsPlain R ri.start_time row (unix e.start_time) plain.0 in
      let (ends, run', end_plain) =
        set_value-ReturnsPlain R ri.end_time row (unix e.end_time) plain.1 in
      let key = record (event_key_from_proto e ts is_deleted) { local = true } in
      let ri' : RoaringIndex Bitmap = record {
        all = R.add ri.all row;
        start_time = starts;
        end_time = ends;
        tags = add_tags R e.tags row ri.tags;
        annotations = add_annotations R e.annotations row ri.annotations;
        keys = ri.keys ++ key ∷ [];
        indexes = insert_by same_key key row ri.indexes;
      } in
      (
        ri',
        ground (arith, run, run'),
        (start_plain, end_plain),
        run,
        run',
        refl,
        refl,
        (key, refl, refl, refl),
      )

  from_items-eq-none_iff :
      (items : List (EventKey × Option Event)) (ri : RoaringIndex Bitmap)
      → BothPlain ri
      → (from_items R ri items ≡ none) ↔ (any is_tombstone items ≡ true)
  unfolding from_items index_event
  from_items-eq-none_iff [] ri plain = ground arith
  from_items-eq-none_iff ((key, none) ∷ items) ri plain = ground arith
  from_items-eq-none_iff ((key, some e) ∷ items) ri plain =
      let (ri₁, first, plain₁, _, _, _, _, _) =
        index_event_returns ri e key.timestamp key.is_deleted plain in
      let rest = from_items-eq-none_iff items ri₁ plain₁ in ground (arith, first, rest)

  -- `fromMemTable` panics exactly when some item of the table has no event, as the item of a
  -- deletion, and gives an index for every other table.
  pub from_mem_table-eq-none_iff :
      (items : List (EventKey × Option Event))
      → (from_mem_table R items ≡ none) ↔ (any is_tombstone items ≡ true)
  unfolding from_mem_table new_roaring_index new_default_bsi new_bsi
  from_mem_table-eq-none_iff items = from_items-eq-none_iff items (new_roaring_index R) (refl, refl)
