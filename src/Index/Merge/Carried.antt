-- ===== src/Index/Merge/Carried.antt =====
-- `mergeTwoIndices`: every event of either index has a row in the merge, with its tags, its
-- annotations and its times.
use bitstar.Base.{
  Bytes, ℕ, ◌+◌, ◌^◌, ◌≤◌, ◌<◌, ◌≡◌, refl, ◌∙◌, true, List, [], ◌∷◌, some, arith, length, get_elem?,
  get_elem?-lt, ltb, if◌then◌else◌, same_bytes, same_bytes_iff, entry_or, insert_by,
  lt-length_of_get_elem?, ◌-◌,
}
use bitstar.Roaring.{Roaring}
use bitstar.Keys.Defs.{unix, EventKey, same_key}
use bitstar.Memtable.Defs.{Event}
use bitstar.Index.Defs.{RoaringIndex, Pair, same_pair}
use bitstar.Index.Agree.{IsIndexed}
use bitstar.Index.Times.{HasTimes}
use bitstar.Index.Rows.{same_pair_iff}
use bitstar.Index.Merge.Defs.{
  MergedKeys, merge_keys, move_indexes, merge_bsi, merge_indexes, merge_maps, merge_parts,
  merge_two_indices,
}
use bitstar.Index.Merge.Rows.{
  IsMerge, merge_keys-IsMerge, IsMerge-swap, IsMerge-lengths, IsRowOf, remap_a-IsRowOf,
  remap_a-injective, remaps_disjoint,
}
use bitstar.Index.Merge.Move.{IsOwn, IsFree}
use bitstar.Index.Merge.Maps.{IsRowMap, AllShort, merge_maps-IsMapMerge}
use bitstar.Index.Merge.Bsis.{Reads, merge_bsi-IsBsiMerge}

module _ (R : Roaring) where
  open R use {Bitmap}

  -- The rows of `indexes` are those of keys.
  abbrev pub AllRows : ℕ → List (EventKey × ℕ) → Type 0
  AllRows n [] = Unit
  AllRows n ((k, r) ∷ m) = (r < n) × AllRows n m

  -- All rows that the parts of the index speak of have keys, and the maps have each key once.
  pub record IsMergeable (ri : RoaringIndex Bitmap) : Type 0 where
    pub tag_rows : IsRowMap R same_bytes (length ri.keys) ri.tags
    pub annotation_rows : IsRowMap R same_pair (length ri.keys) ri.annotations
    pub start_rows : AllShort R (length ri.keys) ri.start_time.b_a
    pub end_rows : AllShort R (length ri.keys) ri.end_time.b_a
    pub narrow_start : length ri.start_time.b_a ≤ 64
    pub narrow_end : length ri.end_time.b_a ≤ 64
    pub index_rows : AllRows (length ri.keys) ri.indexes

  move_indexes_returns :
      (m : List (EventKey × ℕ)) (remap : List ℕ) (out : List (EventKey × ℕ))
      → AllRows (length remap) m
      → (result : List (EventKey × ℕ)) × (move_indexes R m remap out ≡ some result)
  unfolding move_indexes
  move_indexes_returns [] remap out rows = (out, refl)
  move_indexes_returns ((k, old) ∷ m) remap out rows =
      let (r, there) = get_elem?-lt remap old (omega (arith, rows.0)) in
      let (result, runs) = move_indexes_returns m remap (insert_by same_key k r out) rows.1 in
      (result, ground (arith, there, runs))

  -- The event at row `i` of the one index is at row `r` of the other.
  pub record IsCarried (ri out : RoaringIndex Bitmap) (i r : ℕ) : Type 0 where
    pub same_key : get_elem? out.keys r ≡ get_elem? ri.keys i
    pub same_event : (e : Event) → IsIndexed R ri i e → IsIndexed R out r e
    pub same_times : (e : Event) → HasTimes R ri i e → HasTimes R out r e

  -- The keys of the merge interleave those of the two indexes, and every row is carried over.
  pub record IsIndexMerge (a b out : RoaringIndex Bitmap) : Type 0 where
    pub remap_a : List ℕ
    pub remap_b : List ℕ
    pub rows : IsMerge 0 out.keys a.keys b.keys remap_a remap_b
    pub carried_a : (i r : ℕ) → get_elem? remap_a i ≡ some r → IsCarried a out i r
    pub carried_b : (j r : ℕ) → get_elem? remap_b j ≡ some r → IsCarried b out j r

  pub merge_parts-eq :
      (m : MergedKeys) (a b out : RoaringIndex Bitmap)
      → merge_indexes R a.indexes b.indexes m.remap_a m.remap_b ≡ some out.indexes
      → merge_maps R same_bytes a.tags b.tags m.remap_a m.remap_b ≡ some out.tags
      → merge_maps R same_pair a.annotations b.annotations m.remap_a m.remap_b
        ≡ some out.annotations
      → merge_bsi R a.start_time b.start_time m.remap_a m.remap_b (length m.keys)
        ≡ some out.start_time
      → merge_bsi R a.end_time b.end_time m.remap_a m.remap_b (length m.keys) ≡ some out.end_time
      → out.all ≡ (if ltb 0 (length m.keys) then R.add_range R.new 0 (length m.keys) else R.new)
      → out.keys ≡ m.keys
      → merge_parts R m a b ≡ some out
  unfolding merge_parts
  merge_parts-eq m a b out h1 h2 h3 h4 h5 h6 h7 = ground arith

  -- What the merge holds at the new row of a row of one side.
  carried :
      (ri out : RoaringIndex Bitmap) (i r : ℕ)
      → IsRowOf 0 out.keys r (get_elem? ri.keys i)
      → R.contains out.all r ≡ true
      → ((name : Bytes)
          → R.contains (entry_or same_bytes R.new name out.tags) r
            ≡ R.contains (entry_or same_bytes R.new name ri.tags) i)
      → ((name : Pair)
          → R.contains (entry_or same_pair R.new name out.annotations) r
            ≡ R.contains (entry_or same_pair R.new name ri.annotations) i)
      → Reads R ri.start_time out.start_time i r
      → Reads R ri.end_time out.end_time i r
      → IsCarried ri out i r
  carried ri out i r row in_all tags annotations starts ends = record {
    same_key = let whole : r - 0 ≡ r = omega arith in rw whole at row.same_key;
    same_event = λ e old. record {
      in_all = in_all;
      tagged = λ name. tags name ∙ old.tagged name;
      annotated = λ key value. annotations (key, value) ∙ old.annotated key value;
    };
    same_times = λ e old. record {
      starts = starts (unix e.start_time) old.starts;
      ends = ends (unix e.end_time) old.ends;
    };
  }

  merge_indexes_returns :
      (a b : List (EventKey × ℕ)) (remap_a remap_b : List ℕ)
      → AllRows (length remap_a) a
      → AllRows (length remap_b) b
      → (out : List (EventKey × ℕ)) × (merge_indexes R a b remap_a remap_b ≡ some out)
  unfolding merge_indexes
  merge_indexes_returns a b remap_a remap_b rows_a rows_b =
      let (with_a, runs) = move_indexes_returns a remap_a [] rows_a in
      let (out, runs') = move_indexes_returns b remap_b with_a rows_b in
      (out, ground (arith, runs, runs'))

  -- `mergeTwoIndices` returns, and every event of either index has a row of its own in the merge,
  -- with its key, its tags, its annotations and its times. The rows that the two indexes speak of
  -- have keys, and there are at most 2 ^ 32 together.
  pub merge_two_indices-IsIndexMerge :
      (a b : RoaringIndex Bitmap)
      → IsMergeable a
      → IsMergeable b
      → length a.keys + length b.keys ≤ 2 ^ 32
      → (out : RoaringIndex Bitmap) × (merge_two_indices R a b ≡ some out) × IsIndexMerge a b out
  unfolding merge_two_indices
  merge_two_indices-IsIndexMerge a b fa fb fits =
      let m = merge_keys (length a.keys + length b.keys) 0 a.keys b.keys in
      let rows : IsMerge 0 m.keys a.keys b.keys m.remap_a m.remap_b =
        merge_keys-IsMerge (length a.keys + length b.keys) 0 a.keys b.keys (omega arith)
          (omega arith) in
      let (size, size_a, size_b) = IsMerge-lengths rows in
      let swapped = IsMerge-swap rows in
      let total = length m.keys in
      let (indexes, run) =
        merge_indexes_returns a.indexes b.indexes m.remap_a m.remap_b (rw size_a fa.index_rows)
          (rw size_b fb.index_rows) in
      let (tags, run2, tag) =
        merge_maps-IsMapMerge R same_bytes same_bytes_iff a.tags b.tags m.remap_a m.remap_b
          (rw size_a fa.tag_rows) (rw size_b fb.tag_rows) in
      let (annotations, run3, annotation) =
        merge_maps-IsMapMerge R same_pair same_pair_iff a.annotations b.annotations m.remap_a
          m.remap_b (rw size_a fa.annotation_rows) (rw size_b fb.annotation_rows) in
      let (starts, run4, start) =
        merge_bsi-IsBsiMerge R a.start_time b.start_time m.remap_a m.remap_b total
          (rw size_a fa.start_rows) (rw size_b fb.start_rows) fa.narrow_start fb.narrow_start
          (omega (arith, size)) (omega (arith, size_a)) (omega (arith, size_b)) in
      let (ends, run5, end) =
        merge_bsi-IsBsiMerge R a.end_time b.end_time m.remap_a m.remap_b total
          (rw size_a fa.end_rows) (rw size_b fb.end_rows) fa.narrow_end fb.narrow_end
          (omega (arith, size)) (omega (arith, size_a)) (omega (arith, size_b)) in
      let out : RoaringIndex Bitmap = record {
        all = if ltb 0 total then R.add_range R.new 0 total else R.new;
        start_time = starts;
        end_time = ends;
        tags = tags;
        annotations = annotations;
        keys = m.keys;
        indexes = indexes;
      } in
      let in_all : (r : ℕ) → r < total → R.contains out.all r ≡ true =
        λ r inside. ground (arith, R.contains-add_range R.new 0 total r) in
      (
        out,
        merge_parts-eq m a b out run run2 run3 run4 run5 refl refl,
        record {
          remap_a = m.remap_a;
          remap_b = m.remap_b;
          rows = rows;
          carried_a = λ i r there.
              let own : IsOwn m.remap_a i r =
                (there, λ j e. remap_a-injective rows i j r there e) in
              let free : IsFree m.remap_b r = λ j e. remaps_disjoint rows i j r there e in
              let row = remap_a-IsRowOf rows i r there in
              let small : i < 2 ^ 32 =
                omega (arith, lt-length_of_get_elem? m.remap_a i there, size_a) in
              let inside : r < total = omega (arith, row.inside) in
              carried a out i r row (in_all r inside) (tag.own_a i r own free)
                (annotation.own_a i r own free) (start.reads_a i r small inside own free)
                (end.reads_a i r small inside own free);
          carried_b = λ i r there.
              let own : IsOwn m.remap_b i r =
                (there, λ j e. remap_a-injective swapped i j r there e) in
              let free : IsFree m.remap_a r = λ j e. remaps_disjoint swapped i j r there e in
              let row = remap_a-IsRowOf swapped i r there in
              let small : i < 2 ^ 32 =
                omega (arith, lt-length_of_get_elem? m.remap_b i there, size_b) in
              let inside : r < total = omega (arith, row.inside) in
              carried b out i r row (in_all r inside) (tag.own_b i r own free)
                (annotation.own_b i r own free) (start.reads_b i r small inside own free)
                (end.reads_b i r small inside own free);
        },
      )
