-- ===== src/Index/Query.antt =====
-- `query`: a filter and two times on the index of a table.
use mathlib.Core.List.{Perm}
use bitstar.Base.{
  ℕ, ◌+◌, ◌≤◌, ◌<◌, ◌^◌, ◌≡◌, ap, ◌∙◌, Bool, ◌&&◌, List, Option, some, arith, length, get_elem?,
  leb, signed_rank,
}
use bitstar.Roaring.{Roaring}
use bitstar.Keys.Defs.{Time, EventKey, unix}
use bitstar.Filtering.Syntax.{Expression, an_expression}
use bitstar.Filtering.Whole.{IsWhole}
use bitstar.Bsi.Compare.Parallel.{compare_value-le, compare_value-ge}
use bitstar.Memtable.Defs.{Event, Bloom, ok, match_expression, new_mem_table_item}
use bitstar.Index.Defs.{RoaringIndex, from_mem_table, eval_expression, query, new_roaring_index}
use bitstar.Index.Agree.{eval_expression-match_expression}
use bitstar.Index.Times.{slices_value-get_value, IsOfTimes, HasTimes, unix-lt}
use bitstar.Index.Filled.{AllEvents, from_mem_table-IsExtended}

module _ (R : Roaring) where
  open R use {Bitmap}

  module _ (num_cpu : ℕ) (arrive : List Bitmap → List Bitmap) (cpus : 0 < num_cpu)
      (arrives : (rs : List Bitmap) → Perm (arrive rs) rs) where
    -- At a row that holds a time, `query` is the filter and the two comparisons of times.
    query_at :
        (ri : RoaringIndex Bitmap) (x : Expression) (start_time end_time : Time) (found : Bitmap)
        → IsOfTimes R ri.start_time
        → IsOfTimes R ri.end_time
        → eval_expression R ri x ≡ ok (some found)
        → (r : ℕ) (e : Event) → r < 2 ^ 32
        → HasTimes R ri r e
        → (result : Bitmap) × (query R ri num_cpu arrive start_time end_time
              (record { expression = an_expression x })
            ≡ ok (some result))
          × (R.contains result r ≡ (
              (R.contains found r
                && leb (signed_rank (unix e.start_time)) (signed_rank (unix end_time)))
              && leb (signed_rank (unix start_time)) (signed_rank (unix e.end_time))))
    unfolding query
    query_at ri x start_time end_time found start_times end_times evaluated r e small times =
        let narrow = start_times.valid.width in
        let narrow' = end_times.valid.width in
        let (started, run, at) =
          compare_value-le R num_cpu 4 arrive ri.start_time (unix end_time) 0 (some found) cpus
            arrives narrow (unix-lt end_time) in
        let (result, run', at') =
          compare_value-ge R num_cpu 4 arrive ri.end_time (unix start_time) 0 (some started) cpus
            arrives narrow' (unix-lt start_time) in
        let starts =
          slices_value-get_value R ri.start_time r (unix e.start_time) small narrow times.starts in
        let ends =
          slices_value-get_value R ri.end_time r (unix e.end_time) small narrow' times.ends in
        (result, ground (arith, evaluated, run, run'), at' r ∙ rw (at r, starts, ends))

    -- `query` on the index that `fromMemTable` makes of a table returns a bitmap that holds row `i`
    -- exactly when the filter matches item `i` of the table, the event starts no later than the end
    -- of the range, and it ends no earlier than the start of the range, in seconds of Unix time as
    -- an `int64`; for every order in which the goroutines finish. The items have events, at most
    -- 2 ^ 32, whose annotation keys stand once; the filter has no nil pointers or empty lists and
    -- gives no error on the index.
    pub query-match_expression :
        (B : Bloom) (items : List (EventKey × Option Event)) (ri : RoaringIndex Bitmap)
        (x : Expression) (evaluated : Option Bitmap) (start_time end_time : Time)
        → AllEvents items
        → length items ≤ 2 ^ 32
        → from_mem_table R items ≡ some ri
        → IsWhole x
        → eval_expression R ri x ≡ ok evaluated
        → (i : ℕ) (key : EventKey) (e : Event) → i < length items
        → get_elem? items i ≡ some (key, some e)
        → (result : Bitmap) × (matched : Bool) × (query R ri num_cpu arrive start_time end_time
              (record { expression = an_expression x })
            ≡ ok (some result))
          × (match_expression B x (new_mem_table_item B (some e) key.timestamp key.is_deleted)
              ≡ ok matched)
          × (R.contains result i ≡ (
              (matched && leb (signed_rank (unix e.start_time)) (signed_rank (unix end_time)))
              && leb (signed_rank (unix start_time)) (signed_rank (unix e.end_time))))
    unfolding new_roaring_index
    query-match_expression B items ri x evaluated start_time end_time events small made whole
          evaluates i key e i_small at_i =
        let all = from_mem_table-IsExtended R items ri events small made in
        let row : length (new_roaring_index R).keys + i ≡ i = omega arith in
        let (found, is_found, agrees) =
          eval_expression-match_expression R B ri i e key.timestamp key.is_deleted
            (rw row at (all.new_rows i key e at_i)) x evaluated whole evaluates in
        let (result, runs, holds) =
          query_at ri x start_time end_time found all.start_times all.end_times
            (evaluates ∙ ap ok is_found) i e (omega arith)
            (rw row at (all.new_times i key e at_i)) in
        (result, R.contains found i, runs, agrees, holds)
