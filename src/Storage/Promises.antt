-- ===== src/Storage/Promises.antt =====
-- storage.go over the memtables and the indexes of the program: what its readers are promised.
use bitstar.Base.{
  ◌≡◌, refl, ◌↔◌, true, ◌||◌, List, none, some, any, arith, Bool-cases, Option-cases, inl, inr,
}
use bitstar.Roaring.{Roaring}
use bitstar.Keys.Defs.{EventKey}
use bitstar.Index.Defs.{from_mem_table}
use bitstar.Index.Returns.{is_tombstone, from_mem_table-eq-none_iff}
use bitstar.Index.Merge.Defs.{merge_two_indices}
use bitstar.Index.Merge.Kept.{merge_two_indices-IsBounded}
use bitstar.Storage.SkipLists.{SkipLists}
use bitstar.Storage.Tables.{WriteItem, IsTable}
use bitstar.Storage.Actual.{parts, table_index}
use bitstar.Storage.Levels.{Levels, merge_ptr, merge_level, in_levels, in_levels-merge_level}
use bitstar.Storage.Defs.{
  Storage, System, start_system, is_full, is_visible, in_pending, batch_create_events,
}
use bitstar.Storage.Steps.{Steps}
use bitstar.Storage.Coherent.{Steps-IsCoherent, start_system-IsCoherent}
use bitstar.Storage.Visible.{is_visible-batch_create_events}
use bitstar.Storage.Readers.{reader_sees}

module _ (R : Roaring) (L : SkipLists) where
  -- While the workers run from the start of the storage, a key that is visible when a reader loads
  -- the table is seen by the reader, which loads the pending indexes and then the levels any number
  -- of steps later: neither `fromMemTable` nor a merge hides it.
  pub reader_finds :
      (a b c : System (parts R L)) (k : EventKey)
      → Steps (parts R L) (start_system (parts R L)) a
      → Steps (parts R L) a b
      → Steps (parts R L) b c
      → is_visible (parts R L) a.storage k ≡ true
      → ((parts R L).in_table a.storage.cur k
          || in_pending (parts R L) b.storage k
          || in_levels (parts R L) c.storage.levels k)
        ≡ true
  reader_finds a b c k started run run' visible =
      let P = parts R L in
      reader_sees P a b c k (Steps-IsCoherent P started (start_system-IsCoherent P)) run run'
        visible

  table_index-eq-none_iff :
      (t : (t : L.SkipList) × IsTable L t)
      → ((parts R L).from_mem_table t ≡ none) ↔ (any is_tombstone (L.elements t.0) ≡ true)
  unfolding table_index
  table_index-eq-none_iff t =
      let panics = from_mem_table-eq-none_iff R (L.elements t.0) in
      elim (Option-cases (from_mem_table R (L.elements t.0)))
        as (λ x. (table_index R L t.0 x ≡ none) ↔ (any is_tombstone (L.elements t.0) ≡ true)) [
          | inl panic ↦ ground (arith, panics)
          | inr (ri, made) ↦ ground (arith, panics)
        ]

  batch_create_events_panics :
      (s : Storage (parts R L)) (items : List WriteItem)
      → (batch_create_events (parts R L) s items ≡ none)
        ↔ ((is_full (parts R L) s.cur ≡ true) × (any is_tombstone (L.elements s.cur.0) ≡ true))
  unfolding batch_create_events
  batch_create_events_panics s items =
      let panics = table_index-eq-none_iff s.cur in
      elim (Bool-cases (is_full (parts R L) s.cur)) [
        | inr room ↦ ground arith
        | inl full ↦ elim (Option-cases ((parts R L).from_mem_table s.cur)) [
          | inl panic ↦ ground (arith, panics)
          | inr (ri, made) ↦ ground (arith, panics)
        ]
      ]

  -- `batchCreateEvents`, run alone on a storage that the workers have reached, panics exactly when
  -- the table is full and has the item of a deletion. Otherwise a key is visible after it exactly
  -- when it is one of the keys written or was visible before.
  pub batch_create_events_lem :
      (s : System (parts R L)) (items : List WriteItem)
      → Steps (parts R L) (start_system (parts R L)) s
      → ((batch_create_events (parts R L) s.storage items ≡ none) ↔ (
          (is_full (parts R L) s.storage.cur ≡ true)
          × (any is_tombstone (L.elements s.storage.cur.0) ≡ true)))
        × ((s' : Storage (parts R L)) (k : EventKey)
            → batch_create_events (parts R L) s.storage items ≡ some s'
            → is_visible (parts R L) s' k
              ≡ (any (λ i. (parts R L).writes i k) items || is_visible (parts R L) s.storage k))
  batch_create_events_lem s items started =
      let P = parts R L in
      let coherent = Steps-IsCoherent P started (start_system-IsCoherent P) in
      (
        batch_create_events_panics s.storage items,
        λ s' k e. is_visible-batch_create_events P s.storage s' items k coherent.pen_there e,
      )

  -- `mergeLevel` with `mergeTwoIndices`: a key is in the levels after it exactly when it was in them
  -- or is in the index. Two indexes that are merged are merged by `mergeTwoIndices`, which returns.
  pub merge_level_lem :
      (levels : Levels ((parts R L).Index)) (ri : (parts R L).Index) (k : EventKey)
      → (in_levels (parts R L) (merge_level (parts R L) levels ri) k
          ≡ (in_levels (parts R L) levels k || (parts R L).in_index ri k))
        × ((a b : (parts R L).Index)
            → (out : (parts R L).Index) × (merge_ptr (parts R L) (some a) (some b) ≡ some out)
              × (merge_two_indices R a.0 b.0 ≡ some out.0))
  unfolding merge_ptr
  merge_level_lem levels ri k = (
    in_levels-merge_level (parts R L) levels ri k,
    λ a b. (
      (parts R L).merge_two_indices a b,
      refl,
      (merge_two_indices-IsBounded R a.0 b.0 a.1 b.1).1,
    ),
  )
