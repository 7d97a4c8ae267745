-- ===== src/Iterators/Stale.antt =====
-- iterator_index.go and iterator_memtable.go side by side: an event whose newest version does not
-- match the filter.
use bitstar.Base.{
  ℕ, ◌<◌, ◌≤◌, ◌≡◌, refl, ap, ◌∙◌, true, false, [], ◌∷◌, some, arith, same_bytes, length,
}
use bitstar.Roaring.{Roaring}
use bitstar.Keys.Defs.{EventKey}
use bitstar.Filtering.Syntax.{Filter}
use bitstar.Memtable.Defs.{Bloom, MemTableItem}
use bitstar.Index.Defs.{RoaringIndex}
use bitstar.Iterators.Rows.Defs.{IndexIterator, new_index_iterator, drain}
use bitstar.Iterators.Rows.Keys.{keys_at}
use bitstar.Iterators.Rows.Listing.{drain-new_index_iterator}
use bitstar.Iterators.Table.Defs.{Items, new_mem_table_iterator, is_repeat, is_match, table_drain}
use bitstar.Iterators.Table.Listing.{table_drain-new_mem_table_iterator}

module _ (R : Roaring) (B : Bloom) where
  -- A table has two versions of an event, the newer first, both with a timestamp at most `ts`, and
  -- an index has their keys; the newer version does not match the filter, and the posting has the row
  -- of the older one only. Then `MemTableIterator` gives nothing, and `IndexIterator` gives the old
  -- version.
  pub drain-stale :
      (new old : EventKey) (new_item old_item : MemTableItem B.BloomFilter) (f : Filter) (ts : ℕ)
      (ri : RoaringIndex R.Bitmap) (posting : R.Bitmap)
      → same_bytes old.id new.id ≡ true
      → new.timestamp ≤ ts
      → old.timestamp ≤ ts
      → is_match B f new_item ≡ false
      → ri.keys ≡ new ∷ old ∷ []
      → R.to_array posting ≡ 1 ∷ []
      → (table_drain B 3 (new_mem_table_iterator B ((new, new_item) ∷ (old, old_item) ∷ []) f ts)
          ≡ some [])
        × ((ii : IndexIterator R) × (new_index_iterator R ri posting ts ≡ some ii)
            × (drain R 2 ii ≡ some (old ∷ [])))
  drain-stale new old new_item old_item f ts ri posting same_id new_seen old_seen unmatched keys
        rows =
      let items : Items B = (new, new_item) ∷ (old, old_item) ∷ [] in
      let repeated : is_repeat B ts (some new) old ≡ true = unfold is_repeat in ground arith in
      let at : keys_at ri.keys (R.to_array posting) ≡ some (old ∷ []) = rw (keys, rows) refl in
      let size : R.cardinality posting < 2 =
        omega (arith, R.cardinality-to_array posting, ap length rows) in
      let (ii, made, runs) = drain-new_index_iterator R ri posting ts 2 (old ∷ []) at size in
      (
        table_drain-new_mem_table_iterator B items f ts 3 (omega arith)
            ∙ ground (arith, repeated, unmatched),
        (ii, made, runs ∙ ground arith),
      )
