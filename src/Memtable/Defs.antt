-- ===== src/Memtable/Defs.antt =====
-- memtable.go, and match_memtable_item.go: events in memory, and the filter applied to one.
use bitstar.Base.{
  ℕ, Bool, true, false, not, ◌&&◌, List, [], ◌∷◌, ◌++◌, Option, none, some, if◌then◌else◌, any,
  Bytes, codes, same_bytes, lookup_by, ◌≡◌, ◌⊎◌,
}
use bitstar.Keys.Defs.{Time}
use bitstar.Filtering.Syntax.{
  Value, Comparable, Expression, Sequences, Sequence, Factors, Factor, Terms, Term, Simple, ArgPtr,
  ExpressionPtr, expression, no_sequences, nil_sequence, a_sequence, sequence, no_factors,
  nil_factor, a_factor, factor, no_terms, nil_term, a_term, nil_simple, term, simple,
  nil_restriction, restriction, nil_arg, arg, nil_expression, an_expression,
}

-- The fields of the protobuf `Event` that indexing and matching read. A missing time stands as the
-- instant that `AsTime` gives for it.
pub record Event : Type 0 where
  pub type_code : Bytes
  pub external_id : Bytes
  pub id : Bytes
  pub start_time : Time
  pub end_time : Time
  pub tags : List Bytes
  pub annotations : List (Bytes × Bytes)

-- `github.com/bits-and-blooms/bloom/v3`: a test never fails for a string that was added.
pub record Bloom : Type 1 where
  pub BloomFilter : Type 0
  pub new_with_estimates : BloomFilter
  pub add_string : BloomFilter → Bytes → BloomFilter
  pub test_string : BloomFilter → Bytes → Bool
  pub test-add :
      (f : BloomFilter) (s t : Bytes)
      → (s ≡ t) ⊎ (test_string f t ≡ true)
      → test_string (add_string f s) t ≡ true

-- `memTableItem`.
pub record MemTableItem (BloomFilter : Type 0) : Type 0 where
  pub event : Option Event
  pub tags : BloomFilter
  pub annotations : BloomFilter
  pub ts : ℕ
  pub is_deleted : Bool

-- The errors of a filter that is applied, without their text.
pub data FilterError : Type 0 where
  invalid_restriction : FilterError
  tags_requires_argument : FilterError
  tags_type_mismatch : FilterError
  annotations_requires_key_and_value : FilterError
  annotations_type_mismatch : FilterError
  unknown_field : Bytes → FilterError

pub data Outcome {ℓ} (A : Type ℓ) : Type ℓ where
  ok : A → Outcome A
  err : FilterError → Outcome A

infixl 5 ◌>>=◌
abbrev pub ◌>>=◌ {ℓ κ} : {A : Type ℓ} {B : Type κ} → Outcome A → (A → Outcome B) → Outcome B
ok a >>= f = f a
err e >>= f = err e

-- What a restriction asks for.
pub data Question : Type 0 where
  has_tag : Bytes → Question
  has_annotation : Bytes → Bytes → Question

-- `r.Arg.Comparable.Member.Value`, if no pointer on the way is nil.
abbrev arg_value : ArgPtr → Option Value
arg_value nil_arg = none
arg_value (arg none e) = none
arg_value (arg (some c) e) = elim c.member [ none ↦ none | some m ↦ m.value ]

-- `r.Comparable.Member`, if it is there with its value.
abbrev left_member : Option Comparable → Option (Value × List Value)
left_member none = none
left_member (some c) = elim c.member [
  | none ↦ none
  | some m ↦ elim m.value [ none ↦ none | some v ↦ some (v, m.fields) ]
]

-- The checks that `matchRestriction` and `evalRestriction` share line by line.
unfoldable pub restriction_question : Option Comparable → ArgPtr → Outcome Question
unfolding same_bytes
restriction_question c a = elim (left_member c) [
  | none ↦ err invalid_restriction
  | some (field_name, fields) ↦
      if same_bytes field_name.value (codes "tags")
      then elim (arg_value a) [
        | none ↦ err tags_requires_argument
        | some v ↦ if v.quoted then ok (has_tag v.value) else err tags_type_mismatch
      ]
      else if same_bytes field_name.value (codes "annotations")
      then elim fields [
        | [] ↦ err annotations_requires_key_and_value
        | key ∷ _ ↦ elim (arg_value a) [
          | none ↦ err annotations_requires_key_and_value
          | some v ↦
              if v.quoted
              then ok (has_annotation key.value v.value)
              else err annotations_type_mismatch
        ]
      ]
      else err (unknown_field field_name.value)
]

-- `k + "_" + v`.
abbrev pub joined : Bytes → Bytes → Bytes
joined k v = k ++ b'_' ∷ v

-- `item.event.GetTags()` and `item.event.GetAnnotations()`, which a nil event answers with nil.
abbrev event_tags : Option Event → List Bytes
event_tags none = []
event_tags (some e) = e.tags

abbrev event_annotations : Option Event → List (Bytes × Bytes)
event_annotations none = []
event_annotations (some e) = e.annotations

-- `slices.Contains(tags, name)`.
unfoldable pub has_tag_in : Bytes → List Bytes → Bool
unfolding same_bytes
has_tag_in name tags = any (λ t. same_bytes t name) tags

-- `val, ok := annotations[key]; ok && val == value`.
unfoldable pub has_annotation_in : Bytes → Bytes → List (Bytes × Bytes) → Bool
unfolding same_bytes lookup_by
has_annotation_in key value m = elim (lookup_by same_bytes key m) [
  | none ↦ false
  | some v ↦ same_bytes v value
]

module _ (B : Bloom) where
  open B use {BloomFilter}

  abbrev pub add_strings : BloomFilter → List Bytes → BloomFilter
  add_strings f [] = f
  add_strings f (s ∷ ss) = add_strings (B.add_string f s) ss

  abbrev pub add_pairs : BloomFilter → List (Bytes × Bytes) → BloomFilter
  add_pairs f [] = f
  add_pairs f ((k, v) ∷ ps) = add_pairs (B.add_string f (joined k v)) ps

  -- `newMemTableItem`.
  unfoldable pub new_mem_table_item : Option Event → ℕ → Bool → MemTableItem BloomFilter
  new_mem_table_item event ts is_deleted = record {
    event = event;
    tags = add_strings B.new_with_estimates (event_tags event);
    annotations = add_pairs B.new_with_estimates (event_annotations event);
    ts = ts;
    is_deleted = is_deleted;
  }

  -- `matchRestriction`, below the checks: the Bloom filter first, then the event.
  unfoldable pub match_question : MemTableItem BloomFilter → Question → Bool
  unfolding has_tag_in has_annotation_in
  match_question item (has_tag name) =
      B.test_string item.tags name && has_tag_in name (event_tags item.event)
  match_question item (has_annotation key value) =
      B.test_string item.annotations (joined key value)
      && has_annotation_in key value (event_annotations item.event)

  -- `matchRestriction`.
  unfoldable pub match_restriction :
      Option Comparable → ArgPtr → MemTableItem BloomFilter → Outcome Bool
  unfolding restriction_question match_question
  match_restriction c a item = restriction_question c a >>= λ q. ok (match_question item q)

  unfoldable mutual
    unfolding match_restriction

    -- `matchMemTableItem`.
    pub match_expression_ptr : ExpressionPtr → MemTableItem BloomFilter → Outcome Bool
    match_expression_ptr nil_expression item = ok true
    match_expression_ptr (an_expression e) item = match_expression e item

    pub match_expression : Expression → MemTableItem BloomFilter → Outcome Bool
    match_expression (expression ss) item = match_sequences ss item

    -- The loop of `matchMemTableItem`.
    pub match_sequences : Sequences → MemTableItem BloomFilter → Outcome Bool
    match_sequences no_sequences item = ok true
    match_sequences (nil_sequence ss) item = match_sequences ss item
    match_sequences (a_sequence s ss) item =
        let rest = match_sequences ss item in
        match_sequence s item >>= λ matched. if matched then rest else ok false

    -- `matchSequence`.
    pub match_sequence : Sequence → MemTableItem BloomFilter → Outcome Bool
    match_sequence (sequence fs) item = match_factors fs item

    pub match_factors : Factors → MemTableItem BloomFilter → Outcome Bool
    match_factors no_factors item = ok true
    match_factors (nil_factor fs) item = match_factors fs item
    match_factors (a_factor f fs) item =
        let rest = match_factors fs item in
        match_factor f item >>= λ matched. if matched then rest else ok false

    -- `matchFactor`.
    pub match_factor : Factor → MemTableItem BloomFilter → Outcome Bool
    match_factor (factor ts) item = match_terms ts item

    pub match_terms : Terms → MemTableItem BloomFilter → Outcome Bool
    match_terms no_terms item = ok false
    match_terms (nil_term ts) item = ok true
    match_terms (a_term t ts) item =
        let rest = match_terms ts item in
        match_term t item >>= λ matched. if matched then ok true else rest

    -- `matchTerm`.
    pub match_term : Term → MemTableItem BloomFilter → Outcome Bool
    match_term (nil_simple negated) item = if negated then ok false else ok true
    match_term (term negated s) item =
        match_simple s item >>= λ matched. if negated then ok (not matched) else ok matched

    -- `matchSimple`.
    pub match_simple : Simple → MemTableItem BloomFilter → Outcome Bool
    match_simple (simple r (an_expression e)) item = match_expression e item
    match_simple (simple (restriction c o a) nil_expression) item = match_restriction c a item
    match_simple (simple nil_restriction nil_expression) item = ok true
