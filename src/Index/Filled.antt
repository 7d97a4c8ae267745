-- ===== src/Index/Filled.antt =====
-- `fromMemTable`: the index of a table answers filters as the items of the table do.
use bitstar.Base.{
  ℕ, zero, suc, ◌+◌, ◌≤◌, ◌<◌, ◌^◌, ◌≡◌, List, [], ◌∷◌, Option, none, some, arith, inl, inr, length,
  get_elem?, Option-cases, lookup_by,
}
use bitstar.Roaring.{Roaring}
use bitstar.Keys.Defs.{EventKey}
use bitstar.Filtering.Syntax.{Expression}
use bitstar.Filtering.Whole.{IsWhole}
use bitstar.Memtable.Defs.{Event, Bloom, ok, match_expression, new_mem_table_item}
use bitstar.Index.Defs.{
  RoaringIndex, new_roaring_index, index_event, from_items, from_mem_table, eval_expression,
}
use bitstar.Index.Agree.{IsIndexed, eval_expression-match_expression}
use bitstar.Index.Times.{IsOfTimes, HasTimes, index_event-IsTimed, new_default_bsi-IsOfTimes}
use bitstar.Index.Rows.{DistinctKeys, IsFilled, index_event-IsAppended}

-- The items have events, and each annotation key of an event stands once.
abbrev pub AllEvents : List (EventKey × Option Event) → Type 0
AllEvents [] = Unit
AllEvents ((key, none) ∷ items) = ⊥
AllEvents ((key, some e) ∷ items) = DistinctKeys e.annotations × AllEvents items

module _ (R : Roaring) where
  open R use {Bitmap}

  new_roaring_index-IsFilled : IsFilled R (new_roaring_index R)
  unfolding new_roaring_index lookup_by
  new_roaring_index-IsFilled = record {
    no_tag = λ name c h. R.contains-new c;
    no_annotation = λ name c h. R.contains-new c;
    no_row = λ c h. R.contains-new c;
  }

  -- What holds of the event at a row, by its number.
  row_of :
      (Holds : ℕ → Event → Type 0) (n m : ℕ) (key : EventKey) (e : Event)
      (items : List (EventKey × Option Event))
      → m ≡ suc n
      → Holds n e
      → ((i : ℕ) (key' : EventKey) (e' : Event)
          → get_elem? items i ≡ some (key', some e')
          → Holds (m + i) e')
      → (i : ℕ) (key' : EventKey) (e' : Event)
      → get_elem? ((key, some e) ∷ items) i ≡ some (key', some e')
      → Holds (n + i) e'
  row_of Holds n m key e items next first rest zero key' e' at_i =
      let same : e ≡ e' = ground arith in
      let here : n + zero ≡ n = omega arith in rw here (rw same at first)
  row_of Holds n m key e items next first rest (suc i) key' e' at_i =
      let here : n + suc i ≡ m + i = omega arith in rw here (rest i key' e' at_i)

  -- The rows that `fromMemTable` adds to the index.
  pub record IsExtended (ri ri' : RoaringIndex Bitmap) (items : List (EventKey × Option Event))
      : Type 0 where
    pub old_rows :
        (r : ℕ) (e : Event) → r < length ri.keys → IsIndexed R ri r e → IsIndexed R ri' r e
    pub old_times :
        (r : ℕ) (e : Event) → r < length ri.keys → HasTimes R ri r e → HasTimes R ri' r e
    pub new_rows :
        (i : ℕ) (key : EventKey) (e : Event)
        → get_elem? items i ≡ some (key, some e)
        → IsIndexed R ri' (length ri.keys + i) e
    pub new_times :
        (i : ℕ) (key : EventKey) (e : Event)
        → get_elem? items i ≡ some (key, some e)
        → HasTimes R ri' (length ri.keys + i) e
    pub start_times : IsOfTimes R ri'.start_time
    pub end_times : IsOfTimes R ri'.end_time

  from_items-IsExtended :
      (ri ri' : RoaringIndex Bitmap) (items : List (EventKey × Option Event))
      → IsFilled R ri
      → IsOfTimes R ri.start_time
      → IsOfTimes R ri.end_time
      → AllEvents items
      → length ri.keys + length items ≤ 2 ^ 32
      → from_items R ri items ≡ some ri'
      → IsExtended ri ri' items
  unfolding from_items
  from_items-IsExtended ri ri' [] filled start_times end_times events small h =
      let same : ri ≡ ri' = ground arith in
      rw (← same) (record {
        old_rows = λ r e before old. old;
        old_times = λ r e before old. old;
        new_rows = λ i key e at_i. absurd (ground arith);
        new_times = λ i key e at_i. absurd (ground arith);
        start_times = start_times;
        end_times = end_times;
      })
  from_items-IsExtended ri ri' ((key, none) ∷ items) filled start_times end_times events small h =
      absurd events
  from_items-IsExtended ri ri' ((key, some e) ∷ items) filled start_times end_times events small h =
      elim (Option-cases (index_event R ri (some e) key.timestamp key.is_deleted)) [
        | inl stopped ↦ absurd (ground arith)
        | inr (ri₁, first) ↦
            let one =
              index_event-IsAppended R ri ri₁ e key.timestamp key.is_deleted filled events.0
                (omega arith) first in
            let timed =
              index_event-IsTimed R ri ri₁ e key.timestamp key.is_deleted start_times end_times
                (omega arith) first in
            let rest_runs : from_items R ri₁ items ≡ some ri' = ground arith in
            let rest =
              from_items-IsExtended ri₁ ri' items one.stays_filled timed.start_times timed.end_times
                events.1 (omega (arith, one.one_more)) rest_runs in
            let next : length ri.keys < length ri₁.keys = omega (arith, one.one_more) in
            record {
              old_rows = λ r e' before old.
                  rest.old_rows r e' (omega arith) (one.old_rows r e' before old);
              old_times = λ r e' before old.
                  rest.old_times r e' (omega arith) (timed.old_times r e' before old);
              new_rows =
                  row_of (IsIndexed R ri') (length ri.keys) (length ri₁.keys) key e items
                    one.one_more (rest.old_rows (length ri.keys) e next one.new_row) rest.new_rows;
              new_times =
                  row_of (HasTimes R ri') (length ri.keys) (length ri₁.keys) key e items
                    one.one_more (rest.old_times (length ri.keys) e next timed.new_times)
                    rest.new_times;
              start_times = rest.start_times;
              end_times = rest.end_times;
            }
      ]

  -- Item `i` of the table is at row `i` of its index.
  pub from_mem_table-IsExtended :
      (items : List (EventKey × Option Event)) (ri : RoaringIndex Bitmap)
      → AllEvents items
      → length items ≤ 2 ^ 32
      → from_mem_table R items ≡ some ri
      → IsExtended (new_roaring_index R) ri items
  unfolding from_mem_table new_roaring_index
  from_mem_table-IsExtended items ri events small made =
      from_items-IsExtended (new_roaring_index R) ri items new_roaring_index-IsFilled
        (new_default_bsi-IsOfTimes R) (new_default_bsi-IsOfTimes R) events (omega arith) made

  -- A filter on the index that `fromMemTable` makes of a table gives a bitmap that holds row `i`
  -- exactly when the filter matches item `i` of the table. The items have events, at most 2 ^ 32,
  -- whose annotation keys stand once; the filter has no nil pointers or empty lists and gives no
  -- error on the index.
  pub from_mem_table-match_expression :
      (B : Bloom) (items : List (EventKey × Option Event)) (ri : RoaringIndex Bitmap)
      (x : Expression) (result : Option Bitmap)
      → AllEvents items
      → length items ≤ 2 ^ 32
      → from_mem_table R items ≡ some ri
      → IsWhole x
      → eval_expression R ri x ≡ ok result
      → (i : ℕ) (key : EventKey) (e : Event) → get_elem? items i ≡ some (key, some e)
      → (bitmap : Bitmap) × (result ≡ some bitmap)
        × (match_expression B x (new_mem_table_item B (some e) key.timestamp key.is_deleted)
            ≡ ok (R.contains bitmap i))
  unfolding from_mem_table new_roaring_index
  from_mem_table-match_expression B items ri x result events small made whole evaluated i key e
        at_i =
      let all = from_mem_table-IsExtended items ri events small made in
      let row : length (new_roaring_index R).keys + i ≡ i = omega arith in
      eval_expression-match_expression R B ri i e key.timestamp key.is_deleted
        (rw row at (all.new_rows i key e at_i)) x result whole evaluated
