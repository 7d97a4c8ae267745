-- ===== src/Index/Text.antt =====
-- From the text of a filter to the rows: `ParseFilter`, `fromMemTable` and `query` together.
use mathlib.Core.List.{Perm}
use bitstar.Base.{
  ℕ, ◌≤◌, ◌<◌, ◌^◌, ◌≡◌, sym, ap, ◌∙◌, Bool, ◌&&◌, List, Option, some, length, get_elem?, leb,
  signed_rank, Bytes,
}
use bitstar.Roaring.{Roaring}
use bitstar.Keys.Defs.{Time, EventKey, unix}
use bitstar.Filtering.Syntax.{Expression, an_expression, Filter}
use bitstar.Filtering.Result.{ok}
use bitstar.Filtering.Lexer.{Lexer}
use bitstar.Filtering.Parser.{parse_filter}
use bitstar.Filtering.Built.{parse_filter-IsWhole}
use bitstar.Memtable.Defs.{Event, Bloom, Outcome, match_expression, new_mem_table_item}
use bitstar.Index.Defs.{RoaringIndex, from_mem_table, eval_expression, query}
use bitstar.Index.Filled.{AllEvents}
use bitstar.Index.Query.{query-match_expression}

-- For every text of a filter that `ParseFilter` accepts: `query` with the filter on the index that
-- `fromMemTable` makes of a table returns a bitmap that holds row `i` exactly when
-- `matchMemTableItem` accepts item `i` of the table and its times meet the range, in seconds of Unix
-- time as an `int64`; for every order in which the goroutines finish. The items have events, at most
-- 2 ^ 32, whose annotation keys stand once; the filter has an expression that gives no error on the
-- index, and there is at least one processor.
pub query-parse_filter :
    (R : Roaring) (unquote : Bytes → Option Bytes) (num_cpu : ℕ)
    (arrive : List R.Bitmap → List R.Bitmap)
    → 0 < num_cpu
    → ((rs : List R.Bitmap) → Perm (arrive rs) rs)
    → (B : Bloom) (text : Bytes) (filter : Filter) (l : Lexer) (x : Expression)
      (items : List (EventKey × Option Event)) (ri : RoaringIndex R.Bitmap)
      (evaluated : Option R.Bitmap) (start_time end_time : Time)
    → parse_filter unquote text ≡ ok filter l
    → filter.expression ≡ an_expression x
    → AllEvents items
    → length items ≤ 2 ^ 32
    → from_mem_table R items ≡ some ri
    → eval_expression R ri x ≡ Outcome.ok evaluated
    → (i : ℕ) (key : EventKey) (e : Event) → i < length items
    → get_elem? items i ≡ some (key, some e)
    → (result : R.Bitmap) × (matched : Bool) × (query R ri num_cpu arrive start_time end_time filter
        ≡ Outcome.ok (some result))
      × (match_expression B x (new_mem_table_item B (some e) key.timestamp key.is_deleted)
          ≡ Outcome.ok matched)
      × (R.contains result i ≡ (
          (matched && leb (signed_rank (unix e.start_time)) (signed_rank (unix end_time)))
          && leb (signed_rank (unix start_time)) (signed_rank (unix e.end_time))))
query-parse_filter R unquote num_cpu arrive cpus arrives B text filter l x items ri evaluated
      start_time end_time parsed has events small made evaluates i key e inside at_i =
    let whole = parse_filter-IsWhole unquote text filter l x parsed has in
    let (result, matched, runs, agrees, holds) =
      query-match_expression R num_cpu arrive cpus arrives B items ri x evaluated start_time
        end_time events small made whole evaluates i key e inside at_i in
    let same : record { expression = an_expression x } ≡ filter =
      ap (λ x'. record { expression = x' }) (sym has) in
    (
      result,
      matched,
      ap (query R ri num_cpu arrive start_time end_time) (sym same) ∙ runs,
      agrees,
      holds,
    )
