-- ===== src/Storage/Actual.antt =====
-- memtable.go and index.go as the parts that storage.go is made of: the tables over a skip list, and
-- the indexes with their merge.
use bitstar.Base.{
  ◌≡◌, refl, sym, ap, true, false, ◌||◌, List, [], ◌∷◌, Option, none, some, arith, any,
  Option-cases, inl, inr, ◌⊎◌,
}
use bitstar.Roaring.{Roaring}
use bitstar.Keys.Defs.{EventKey, memtable_compare}
use bitstar.Memtable.Defs.{Event}
use bitstar.Index.Defs.{RoaringIndex, event_key_from_proto, from_mem_table}
use bitstar.Index.Bounded.{IsTrue, from_mem_table-IsBounded}
use bitstar.Index.Merge.Kept.{IsBounded, merge_two_indices-IsBounded}
use bitstar.Storage.Parts.{Parts}
use bitstar.Storage.SkipLists.{SkipLists}
use bitstar.Storage.Tables.{
  WriteItem, key_and_event, same_version, same_version_congruent, any-IsPut, IsTable, IsKeyed,
  new_mem_table, put_item, new_mem_table-IsTable, put_item-IsTable,
}

module _ (R : Roaring) (L : SkipLists) where
  open R use {Bitmap}
  open L use {SkipList}

  -- The keys that an index makes of keyed items are the same to the skip list.
  IsKeyed-IsTrue :
      (k : EventKey) (items : List (EventKey × Option Event))
      → IsKeyed items
      → IsTrue R (same_version L k) items
  unfolding event_key_from_proto
  IsKeyed-IsTrue k [] h = tt
  IsKeyed-IsTrue k ((key, none) ∷ items) h = IsKeyed-IsTrue k items h
  IsKeyed-IsTrue k ((key, some e) ∷ items) h = (
    same_version_congruent L
        (record (event_key_from_proto e key.timestamp key.is_deleted) { local = true }) key k
        (sym h.0) (sym h.1) refl,
    IsKeyed-IsTrue k items h.2,
  )

  -- `fromMemTable` of a table, and `mergeTwoIndices` of indexes, which returns.
  unfoldable pub table_index :
      (t : SkipList)
      → (from_mem_table R (L.elements t) ≡ none)
        ⊎ ((ri : RoaringIndex Bitmap) × (from_mem_table R (L.elements t) ≡ some ri))
      → Option ((ri : RoaringIndex Bitmap) × IsBounded R ri)
  table_index t (inl panic) = none
  table_index t (inr (ri, e)) = some (ri, (from_mem_table-IsBounded R (L.elements t) ri e).0)

  pub in_new_mem_table :
      (k : EventKey) → any (λ i. same_version L k i.0) (L.elements (new_mem_table L)) ≡ false
  unfolding new_mem_table
  in_new_mem_table k = rw (L.elements-new (memtable_compare L.less_than_func)) refl

  pub in_put_item :
      (t : (t : SkipList) × IsTable L t) (i : WriteItem) (k : EventKey)
      → any (λ i. same_version L k i.0) (L.elements (put_item L t.0 i))
        ≡ (same_version L k (key_and_event i).0 || any (λ i. same_version L k i.0) (L.elements t.0))
  unfolding put_item
  in_put_item t i k =
      let (key, value) = key_and_event i in
      any-IsPut L key k value (rw t.1.in_order at (L.elements-set t.0 key value))

  in_made :
      (t : SkipList) (ri : (ri : RoaringIndex Bitmap) × IsBounded R ri) (k : EventKey)
      → IsTable L t
      → (e : (from_mem_table R (L.elements t) ≡ none)
          ⊎ ((ri : RoaringIndex Bitmap) × (from_mem_table R (L.elements t) ≡ some ri)))
      → table_index t e ≡ some ri
      → any (same_version L k) ri.0.keys ≡ any (λ i. same_version L k i.0) (L.elements t)
  unfolding table_index
  in_made t ri k h (inl panic) e = absurd (ground arith)
  in_made t ri k h (inr (made, runs)) e =
      let holds =
        (from_mem_table-IsBounded R (L.elements t) made runs).1 (same_version L k)
          (IsKeyed-IsTrue k (L.elements t) h.keyed) in
      let same : made ≡ ri.0 = ap (λ x. elim x [ none ↦ made | some r ↦ r.0 ]) e in
      rw (← same) holds

  pub in_table_index :
      (t : (t : SkipList) × IsTable L t) (ri : (ri : RoaringIndex Bitmap) × IsBounded R ri)
      (k : EventKey)
      → table_index t.0 (Option-cases (from_mem_table R (L.elements t.0))) ≡ some ri
      → any (same_version L k) ri.0.keys ≡ any (λ i. same_version L k i.0) (L.elements t.0)
  in_table_index t ri k e =
      in_made t.0 ri k t.1 (Option-cases (from_mem_table R (L.elements t.0))) e

  -- The parts of `Storage`. A table or an index holds a key if it has one that the skip list takes
  -- for the same.
  abbrev pub parts : Parts
  parts = record {
    Item = WriteItem;
    Key = EventKey;
    Table = (t : SkipList) × IsTable L t;
    Index = (ri : RoaringIndex Bitmap) × IsBounded R ri;
    new_mem_table = (new_mem_table L, new_mem_table-IsTable L);
    size = λ t. L.len t.0;
    put_item = λ t i. (put_item L t.0 i, put_item-IsTable L t.0 i t.1);
    from_mem_table = λ t. table_index t.0 (Option-cases (from_mem_table R (L.elements t.0)));
    merge_two_indices = λ a b.
        let (out, runs, bounded, holds) = merge_two_indices-IsBounded R a.0 b.0 a.1 b.1 in
        (out, bounded);
    cardinality = λ ri. R.cardinality ri.0.all;
    writes = λ i k. same_version L k (key_and_event i).0;
    in_table = λ t k. any (λ i. same_version L k i.0) (L.elements t.0);
    in_index = λ ri k. any (same_version L k) ri.0.keys;
    in_table-new_mem_table = in_new_mem_table;
    in_table-put_item = in_put_item;
    in_index-from_mem_table = in_table_index;
    in_index-merge_two_indices =
        λ a b k. (merge_two_indices-IsBounded R a.0 b.0 a.1 b.1).3 (same_version L k);
  }
