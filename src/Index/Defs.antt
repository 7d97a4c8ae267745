-- ===== src/Index/Defs.antt =====
-- index.go: the index of events by row, its construction, and the evaluation of filters on it.
use bitstar.Base.{
  ℕ, ◌%◌, ◌^◌, Bool, true, false, ◌&&◌, List, [], ◌∷◌, ◌++◌, Option, none, some, if◌then◌else◌,
  length, Bytes, same_bytes, lookup_by, insert_by, entry_or,
}
use bitstar.Roaring.{Roaring}
use bitstar.Bsi.Defs.{Bsi, new_default_bsi, set_value}
use bitstar.Bsi.Compare.Defs.{Operation, compare_value}
use bitstar.Keys.Defs.{Time, unix, EventKey, same_key}
use bitstar.Filtering.Syntax.{
  Comparable, Expression, Sequences, Sequence, Factors, Factor, Terms, Term, Simple, ArgPtr,
  ExpressionPtr, expression, no_sequences, nil_sequence, a_sequence, sequence, no_factors,
  nil_factor, a_factor, factor, no_terms, nil_term, a_term, nil_simple, term, simple,
  nil_restriction, restriction, nil_expression, an_expression, Filter,
}
use bitstar.Memtable.Defs.{
  Event, Outcome, ok, ◌>>=◌, Question, has_tag, has_annotation, restriction_question,
}

-- `Pair`.
abbrev pub Pair : Type 0
Pair = Bytes × Bytes

-- `a == b` on pairs.
unfoldable pub same_pair : Pair → Pair → Bool
unfolding same_bytes
same_pair (k, v) (k', v') = same_bytes k k' && same_bytes v v'

-- `roaringIndex`.
pub record RoaringIndex (Bitmap : Type 0) : Type 0 where
  pub all : Bitmap
  pub start_time : Bsi Bitmap
  pub end_time : Bsi Bitmap
  pub tags : List (Bytes × Bitmap)
  pub annotations : List (Pair × Bitmap)
  pub keys : List EventKey
  pub indexes : List (EventKey × ℕ)

-- `EventKeyFromProto`, with the start in UTC.
unfoldable pub event_key_from_proto : Event → ℕ → Bool → EventKey
event_key_from_proto event ts is_deleted = record {
  resource_type_code = event.type_code;
  resource_external_id = event.external_id;
  start_time = event.start_time;
  id = event.id;
  timestamp = ts;
  is_deleted = is_deleted;
  local = false;
}

module _ (R : Roaring) where
  open R use {Bitmap}

  -- `newRoaringIndex`.
  unfoldable pub new_roaring_index : RoaringIndex Bitmap
  unfolding new_default_bsi
  new_roaring_index = record {
    all = R.new;
    start_time = new_default_bsi R;
    end_time = new_default_bsi R;
    tags = [];
    annotations = [];
    keys = [];
    indexes = [];
  }

  -- The loop of `indexEvent` over the tags.
  unfoldable pub add_tags : List Bytes → ℕ → List (Bytes × Bitmap) → List (Bytes × Bitmap)
  unfolding lookup_by insert_by same_bytes
  add_tags [] index m = m
  add_tags (tag ∷ tags) index m =
      add_tags tags index
        (insert_by same_bytes tag (R.add (entry_or same_bytes R.new tag m) index) m)

  -- The loop of `indexEvent` over the annotations.
  unfoldable pub add_annotations : List Pair → ℕ → List (Pair × Bitmap) → List (Pair × Bitmap)
  unfolding lookup_by insert_by same_pair
  add_annotations [] index m = m
  add_annotations (pair ∷ pairs) index m =
      add_annotations pairs index
        (insert_by same_pair pair (R.add (entry_or same_pair R.new pair m) index) m)

  -- `indexEvent`, with the start of the key in the local zone. A nil event is a panic at `event.StartTime`; so is one of a time's index.
  unfoldable pub index_event :
      RoaringIndex Bitmap → Option Event → ℕ → Bool → Option (RoaringIndex Bitmap)
  unfolding event_key_from_proto unix set_value add_tags add_annotations insert_by same_key
  index_event ri none ts is_deleted = none
  index_event ri (some event) ts is_deleted =
      let key = record (event_key_from_proto event ts is_deleted) { local = true } in
      let index = length ri.keys % 2 ^ 32 in
      elim (set_value R ri.start_time index (unix event.start_time)) [
        | none ↦ none
        | some starts ↦ elim (set_value R ri.end_time index (unix event.end_time)) [
          | none ↦ none
          | some ends ↦ some (record {
            all = R.add ri.all index;
            start_time = starts;
            end_time = ends;
            tags = add_tags event.tags index ri.tags;
            annotations = add_annotations event.annotations index ri.annotations;
            keys = ri.keys ++ key ∷ [];
            indexes = insert_by same_key key index ri.indexes;
          })
        ]
      ]

  -- `fromMemTable`, over the table's items in order.
  unfoldable pub from_items :
      RoaringIndex Bitmap → List (EventKey × Option Event) → Option (RoaringIndex Bitmap)
  unfolding index_event
  from_items ri [] = some ri
  from_items ri ((key, event) ∷ items) = elim (index_event ri event key.timestamp key.is_deleted) [
    | none ↦ none
    | some ri' ↦ from_items ri' items
  ]

  unfoldable pub from_mem_table : List (EventKey × Option Event) → Option (RoaringIndex Bitmap)
  unfolding from_items new_roaring_index
  from_mem_table items = from_items new_roaring_index items

  -- `res.And(bitmap)`, with nil for no bitmap.
  abbrev pub and_into : Option Bitmap → Option Bitmap → Option Bitmap
  and_into none bitmap = bitmap
  and_into (some res) none = some res
  and_into (some res) (some bitmap) = some (R.and res bitmap)

  -- `res.Or(bitmap)`, with nil for no bitmap.
  abbrev pub or_into : Option Bitmap → Option Bitmap → Option Bitmap
  or_into none bitmap = bitmap
  or_into (some res) none = some res
  or_into (some res) (some bitmap) = some (R.or res bitmap)

  module _ (ri : RoaringIndex Bitmap) where
    -- `evalRestriction`, below the checks.
    unfoldable pub answer : Question → Bitmap
    unfolding lookup_by same_pair
    answer (has_tag name) = entry_or same_bytes R.new name ri.tags
    answer (has_annotation key value) = entry_or same_pair R.new (key, value) ri.annotations

    -- `evalRestriction`.
    unfoldable pub eval_restriction : Option Comparable → ArgPtr → Outcome (Option Bitmap)
    unfolding restriction_question answer
    eval_restriction c a = restriction_question c a >>= λ q. ok (some (answer q))

    unfoldable mutual
      unfolding eval_restriction

      -- `evalFilter`.
      eval_expression_ptr : ExpressionPtr → Outcome (Option Bitmap)
      eval_expression_ptr nil_expression = ok none
      eval_expression_ptr (an_expression e) = eval_expression e

      pub eval_expression : Expression → Outcome (Option Bitmap)
      eval_expression (expression ss) = eval_sequences ss none

      -- The loop of `evalFilter`.
      pub eval_sequences : Sequences → Option Bitmap → Outcome (Option Bitmap)
      eval_sequences no_sequences res = ok res
      eval_sequences (nil_sequence ss) res = eval_sequences ss res
      eval_sequences (a_sequence s ss) res =
          eval_sequence s >>= λ bitmap. eval_sequences ss (and_into res bitmap)

      -- `evalSequence`.
      pub eval_sequence : Sequence → Outcome (Option Bitmap)
      eval_sequence (sequence fs) = eval_factors fs none

      pub eval_factors : Factors → Option Bitmap → Outcome (Option Bitmap)
      eval_factors no_factors res = ok res
      eval_factors (nil_factor fs) res = eval_factors fs res
      eval_factors (a_factor f fs) res =
          eval_factor f >>= λ bitmap. eval_factors fs (and_into res bitmap)

      -- `evalFactor`.
      pub eval_factor : Factor → Outcome (Option Bitmap)
      eval_factor (factor ts) = eval_terms ts none

      pub eval_terms : Terms → Option Bitmap → Outcome (Option Bitmap)
      eval_terms no_terms res = ok res
      eval_terms (nil_term ts) res = eval_terms ts res
      eval_terms (a_term t ts) res = eval_term t >>= λ bitmap. eval_terms ts (or_into res bitmap)

      -- `evalTerm`.
      pub eval_term : Term → Outcome (Option Bitmap)
      eval_term (nil_simple negated) = ok none
      eval_term (term negated s) = eval_simple s >>= λ found. elim found [
        | none ↦ ok none
        | some bitmap ↦ if negated then ok (some (R.and_not ri.all bitmap)) else ok (some bitmap)
      ]

      -- `evalSimple`.
      pub eval_simple : Simple → Outcome (Option Bitmap)
      eval_simple (simple r (an_expression e)) = eval_expression e
      eval_simple (simple (restriction c o a) nil_expression) = eval_restriction c a
      eval_simple (simple nil_restriction nil_expression) = ok none

    -- `query`: the filter's rows that start no later than the end time and end no earlier than the
    -- start time. `none` inside is a panic.
    unfoldable pub query :
        ℕ → (List Bitmap → List Bitmap) → Time → Time → Filter → Outcome (Option Bitmap)
    unfolding eval_expression compare_value unix
    query num_cpu arrive start_time end_time filter =
        eval_expression_ptr filter.expression >>= λ res.
        elim (compare_value R num_cpu arrive ri.start_time 4 Operation.le (unix end_time) 0 res) [
          | none ↦ ok none
          | some started ↦ ok (
              compare_value R num_cpu arrive ri.end_time 4 Operation.ge (unix start_time) 0
                (some started))
        ]
