-- ===== src/Examples/Iterators.antt =====
-- iterator_index.go, iterator_memtable.go and filtering.go: an event in two versions.
use bitstar.Base.{
  ◌≡◌, ◌⊎◌, refl, Bool, true, false, List, [], ◌∷◌, Option, some, arith, codes, same_bytes, Bytes,
  take, drop, length, ◌-◌,
}
use bitstar.Dense.{dense}
use bitstar.Dense.Bits.{Bits, positions}
use bitstar.Bsi.Defs.{new_default_bsi}
use bitstar.Keys.Defs.{EventKey}
use bitstar.Filtering.Syntax.{
  an_expression, Comparable, Filter, expression, no_sequences, a_sequence, sequence, no_factors,
  a_factor, factor, no_terms, a_term, term, simple, restriction, arg, nil_expression,
}
use bitstar.Filtering.Result.{ok, err, ParseError}
use bitstar.Filtering.Lexer.{Lexer}
use bitstar.Filtering.Parser.{parse_filter}
use bitstar.Filtering.Fuel.Descent.{parse_filter_returns}
use bitstar.Memtable.Defs.{Bloom, Event, MemTableItem, new_mem_table_item, has_tag_in}
use bitstar.Index.Defs.{RoaringIndex}
use bitstar.Iterators.Rows.Defs.{IndexIterator, new_index_iterator, drain}
use bitstar.Iterators.Rows.Listing.{drain-new_index_iterator}
use bitstar.Iterators.Table.Defs.{new_mem_table_iterator, table_drain, is_match}
use bitstar.Iterators.Stale.{drain-stale}

-- A stand-in for `strconv.Unquote` that takes the quotes off.
abbrev strip : Bytes → Option Bytes
strip s = some (take (length s - 2) (drop 1 s))

parse_filter_returns_example :
    ((filter : Filter) × (l : Lexer) × (parse_filter strip (codes "tags:\"a\" AND -(b OR c.d)")
        ≡ ok filter l))
    ⊎ ((e : ParseError) × (parse_filter strip (codes "tags:\"a\" AND -(b OR c.d)") ≡ err e))
parse_filter_returns_example = parse_filter_returns strip (codes "tags:\"a\" AND -(b OR c.d)")

kept-test : (f : List Bytes) (s t : Bytes) → (s ≡ t) ⊎ (true ≡ true) → true ≡ true
kept-test f s t h = refl

-- A Bloom filter that tells nothing.
abbrev blind : Bloom
blind = record {
  BloomFilter = List Bytes;
  new_with_estimates = [];
  add_string = λ f s. s ∷ f;
  test_string = λ f t. true;
  test-add = kept-test;
}

abbrev first_version : Event
first_version = record {
  type_code = codes "host";
  external_id = codes "h1";
  id = codes "e1";
  start_time = record { sec = 62135596801; nsec = 0 };
  end_time = record { sec = 62135596803; nsec = 0 };
  tags = codes "a" ∷ [];
  annotations = [];
}

abbrev second_version : Event
second_version = record first_version { tags = [] }

abbrev old_key : EventKey
old_key = record {
  resource_type_code = codes "host";
  resource_external_id = codes "h1";
  start_time = record { sec = 62135596801; nsec = 0 };
  id = codes "e1";
  timestamp = 7;
  is_deleted = false;
  local = false;
}

abbrev new_key : EventKey
new_key = record old_key { timestamp = 8 }

abbrev old_item : MemTableItem (List Bytes)
old_item = new_mem_table_item blind (some first_version) 7 false

abbrev new_item : MemTableItem (List Bytes)
new_item = new_mem_table_item blind (some second_version) 8 false

abbrev has_value : Bool → Bytes → Option Comparable
has_value quoted value = some (record {
  member = some (record { value = some (record { quoted = quoted; value = value }); fields = [] });
})

-- `tags:"a"`.
abbrev tagged : Filter
tagged = record {
  expression = an_expression (
      expression (
        a_sequence
          (sequence (
            a_factor
              (factor (
                a_term
                  (term false (
                    simple
                      (restriction (has_value false (codes "tags")) (codes ":")
                        (arg (has_value true (codes "a")) nil_expression))
                      nil_expression))
                  no_terms))
              no_factors))
          no_sequences));
}

-- An index with both versions.
abbrev both : RoaringIndex Bits
both = record {
  all = true ∷ true ∷ [];
  start_time = new_default_bsi dense;
  end_time = new_default_bsi dense;
  tags = (codes "a", false ∷ true ∷ []) ∷ [];
  annotations = [];
  keys = new_key ∷ old_key ∷ [];
  indexes = [];
}

new_item-unmatched : is_match blind tagged new_item ≡ false
unfolding is_match new_mem_table_item has_tag_in
new_item-unmatched = refl

drain-stale_example :
    (table_drain blind 3
        (new_mem_table_iterator blind ((new_key, new_item) ∷ (old_key, old_item) ∷ []) tagged 9)
      ≡ some [])
    × ((ii : IndexIterator dense) × (new_index_iterator dense both (false ∷ true ∷ []) 9 ≡ some ii)
        × (drain dense 2 ii ≡ some (old_key ∷ [])))
unfolding same_bytes positions
drain-stale_example =
    drain-stale dense blind new_key old_key new_item old_item tagged 9 both (false ∷ true ∷ []) refl
      (omega arith) (omega arith) new_item-unmatched refl refl

drain-new_index_iterator_example :
    (ii : IndexIterator dense) × (new_index_iterator dense both (true ∷ true ∷ []) 7 ≡ some ii)
    × (drain dense 3 ii ≡ some (old_key ∷ []))
unfolding positions
drain-new_index_iterator_example =
    drain-new_index_iterator dense both (true ∷ true ∷ []) 7 3 (new_key ∷ old_key ∷ []) refl
      (omega arith)
