-- ===== src/Examples/Filters.antt =====
-- index.go and match_memtable_item.go: one event with a tag, and a filter that asks for the tag.
use mathlib.Core.List.Perm as Permutation
use mathlib.Core.List.{Perm}
use bitstar.Base.{
  ◌&&◌, leb, signed_rank, bit, len64, none, any, ◌↔◌, ◌≡◌, ◌⊎◌, inl, inr, refl, Bool, true, false,
  List, [], ◌∷◌, Option, some, arith, Bytes, codes, same_bytes_iff, lookup_by,
}
use bitstar.Dense.{dense}
use bitstar.Dense.Bits.{add, remove, Bits, contains, zip_bits}
use bitstar.Bsi.Defs.{auto_size, grow, write_bits, new_default_bsi}
use bitstar.Filtering.Syntax.{
  an_expression, Comparable, Expression, expression, no_sequences, a_sequence, sequence, no_factors,
  a_factor, factor, no_terms, a_term, term, simple, restriction, arg, nil_expression,
}
use bitstar.Filtering.Whole.{IsWhole}
use bitstar.Memtable.Defs.{
  Event, Bloom, ok, has_tag_in, has_annotation_in, match_expression, new_mem_table_item,
}
use bitstar.Index.Defs.{
  query, event_key_from_proto, new_roaring_index, index_event, from_mem_table, RoaringIndex,
  eval_expression,
}
use bitstar.Index.Text.{query-parse_filter}
use bitstar.Filtering.Parser.{parse_filter}
use bitstar.Filtering.Result.{Result}
use bitstar.Filtering.Syntax.{Filter}
use bitstar.Base.{Bytes, take, drop, length, ◌-◌}
use bitstar.Index.Query.{query-match_expression}
use bitstar.Index.Rows.{IsFilled, IsAppended, index_event-IsAppended}
use bitstar.Index.Filled.{from_mem_table-match_expression}
use bitstar.Index.Returns.{is_tombstone, from_mem_table-eq-none_iff}
use bitstar.Keys.Defs.{unix, EventKey}
use bitstar.Index.Agree.{IsIndexed, eval_expression-match_expression}

-- A filter that keeps every string, and so gives no false positive.
exact-test :
    (f : List Bytes) (s t : Bytes) → (s ≡ t) ⊎ (has_tag_in t f ≡ true) → has_tag_in t (s ∷ f) ≡ true
unfolding has_tag_in
exact-test f s t (inl h) = ground (arith, (same_bytes_iff s t).1 h)
exact-test f s t (inr h) = ground arith

abbrev exact : Bloom
exact = record {
  BloomFilter = List Bytes;
  new_with_estimates = [];
  add_string = λ f s. s ∷ f;
  test_string = λ f t. has_tag_in t f;
  test-add = exact-test;
}

abbrev outage : Event
outage = record {
  type_code = codes "host";
  external_id = codes "h1";
  id = codes "e1";
  start_time = record { sec = 62135596801; nsec = 0 };
  end_time = record { sec = 62135596803; nsec = 0 };
  tags = codes "a" ∷ [];
  annotations = [];
}

-- The index with the event at row 0.
abbrev indexed : RoaringIndex Bits
indexed = record {
  all = true ∷ [];
  start_time = new_default_bsi dense;
  end_time = new_default_bsi dense;
  tags = (codes "a", true ∷ []) ∷ [];
  annotations = [];
  keys = [];
  indexes = [];
}

indexed-IsIndexed : IsIndexed dense indexed 0 outage
indexed-IsIndexed = record {
  in_all = unfold contains in refl;
  tagged = λ name. unfold has_tag_in lookup_by contains in ground arith;
  annotated = λ key value. unfold has_annotation_in lookup_by contains in ground arith;
}

-- `tags:"a"`, and its negation.
abbrev has_value : Bool → Bytes → Option Comparable
has_value quoted value = some (record {
  member = some (record { value = some (record { quoted = quoted; value = value }); fields = [] });
})

abbrev asks : Bool → Expression
asks negated = expression (
    a_sequence
      (sequence (
        a_factor
          (factor (
            a_term
              (term negated (
                simple
                  (restriction (has_value false (codes "tags")) (codes ":")
                    (arg (has_value true (codes "a")) nil_expression))
                  nil_expression))
              no_terms))
          no_factors))
      no_sequences)

asks-IsWhole : IsWhole (asks true)
unfolding IsWhole
asks-IsWhole = (((tt, tt), tt), tt)

asks-evaluates : eval_expression dense indexed (asks true) ≡ ok (some (false ∷ []))
unfolding eval_expression zip_bits
asks-evaluates = refl

eval_expression-match_expression_example :
    (bitmap : Bits) × (some (false ∷ []) ≡ some bitmap)
    × (match_expression exact (asks true) (new_mem_table_item exact (some outage) 7 false)
        ≡ ok (contains bitmap 0))
eval_expression-match_expression_example =
    eval_expression-match_expression dense exact indexed 0 outage 7 false indexed-IsIndexed
      (asks true) (some (false ∷ [])) asks-IsWhole asks-evaluates

-- A table of the event and of a second one without the tag.
abbrev outage_key : EventKey
outage_key = event_key_from_proto outage 7 false

abbrev quiet : Event
quiet = record outage { id = codes "e2"; tags = codes "b" ∷ [] }

abbrev table : List (EventKey × Option Event)
table = (outage_key, some outage) ∷ (event_key_from_proto quiet 8 false, some quiet) ∷ []

abbrev made : RoaringIndex Bits
made = elim (from_mem_table dense table) [ none ↦ new_roaring_index dense | some ri ↦ ri ]

table-made : from_mem_table dense table ≡ some made
unfolding from_mem_table auto_size grow len64 write_bits add contains remove bit new_roaring_index
table-made = refl

made-evaluates : eval_expression dense made (asks true) ≡ ok (some (false ∷ true ∷ []))
unfolding eval_expression zip_bits from_mem_table auto_size grow len64 write_bits add contains
    remove bit new_roaring_index
made-evaluates = refl

from_mem_table-match_expression_example :
    (bitmap : Bits) × (some (false ∷ true ∷ []) ≡ some bitmap)
    × (match_expression exact (asks true) (new_mem_table_item exact (some quiet) 8 false)
        ≡ ok (contains bitmap 1))
unfolding event_key_from_proto
from_mem_table-match_expression_example =
    from_mem_table-match_expression dense exact table made (asks true) (some (false ∷ true ∷ []))
      (tt, (tt, tt)) (omega arith) table-made asks-IsWhole made-evaluates 1
      (event_key_from_proto quiet 8 false) quiet refl

from_mem_table-eq-none_iff_example :
    (from_mem_table dense ((outage_key, none) ∷ table) ≡ none)
    ↔ (any is_tombstone ((outage_key, none) ∷ table) ≡ true)
from_mem_table-eq-none_iff_example = from_mem_table-eq-none_iff dense ((outage_key, none) ∷ table)

abbrev appended : RoaringIndex Bits
appended = elim (index_event dense (new_roaring_index dense) (some outage) 7 false) [
  | none ↦ new_roaring_index dense
  | some ri ↦ ri
]

outage-appended : index_event dense (new_roaring_index dense) (some outage) 7 false ≡ some appended
unfolding index_event auto_size grow len64 write_bits add contains remove bit new_roaring_index
outage-appended = refl

nothing-IsFilled : IsFilled dense (new_roaring_index dense)
unfolding new_roaring_index lookup_by
nothing-IsFilled = record {
  no_tag = λ name c h. dense.contains-new c;
  no_annotation = λ name c h. dense.contains-new c;
  no_row = λ c h. dense.contains-new c;
}

index_event-IsAppended_example : IsAppended dense (new_roaring_index dense) appended outage
unfolding new_roaring_index
index_event-IsAppended_example =
    index_event-IsAppended dense (new_roaring_index dense) appended outage 7 false nothing-IsFilled
      tt (omega arith) outage-appended

unchanged : (rs : List Bits) → Perm rs rs
unchanged rs = Permutation.refl rs

query-match_expression_example :
    (result : Bits) × (matched : Bool) × (query dense made 2
        (λ rs. rs)
        outage.start_time
        outage.end_time
        (record { expression = an_expression (asks true) })
      ≡ ok (some result))
    × (match_expression exact (asks true) (new_mem_table_item exact (some quiet) 8 false)
        ≡ ok matched)
    × (contains result 1 ≡ (
        (matched && leb (signed_rank (unix quiet.start_time)) (signed_rank (unix outage.end_time)))
        && leb (signed_rank (unix outage.start_time)) (signed_rank (unix quiet.end_time))))
unfolding event_key_from_proto
query-match_expression_example =
    query-match_expression dense 2 (λ rs. rs) (omega arith) unchanged exact table made (asks true)
      (some (false ∷ true ∷ [])) outage.start_time outage.end_time (tt, (tt, tt)) (omega arith)
      table-made asks-IsWhole made-evaluates 1 (event_key_from_proto quiet 8 false) quiet
      (omega arith) refl

-- A stand-in for `strconv.Unquote` that takes the quotes off.
abbrev strip : Bytes → Option Bytes
strip s = some (take (length s - 2) (drop 1 s))

abbrev asked : Filter
asked = record { expression = an_expression (asks true) }

asks-parsed :
    parse_filter strip (codes "-tags:\"a\"") ≡ Result.ok asked (record { input = []; next = none })
unfolding parse_filter
asks-parsed = refl

query-parse_filter_example :
    (result : Bits) × (matched : Bool) × (query dense made 2
        (λ rs. rs)
        outage.start_time
        outage.end_time
        asked
      ≡ ok (some result))
    × (match_expression exact (asks true) (new_mem_table_item exact (some quiet) 8 false)
        ≡ ok matched)
    × (contains result 1 ≡ (
        (matched && leb (signed_rank (unix quiet.start_time)) (signed_rank (unix outage.end_time)))
        && leb (signed_rank (unix outage.start_time)) (signed_rank (unix quiet.end_time))))
unfolding event_key_from_proto
query-parse_filter_example =
    query-parse_filter dense strip 2 (λ rs. rs) (omega arith) unchanged exact (codes "-tags:\"a\"")
      asked (record { input = []; next = none }) (asks true) table made (some (false ∷ true ∷ []))
      outage.start_time outage.end_time asks-parsed refl (tt, (tt, tt)) (omega arith) table-made
      made-evaluates 1 (event_key_from_proto quiet 8 false) quiet (omega arith) refl
