-- ===== src/Memtable/Match.antt =====
-- The Bloom filters of an item never lose an event: matching asks the event itself.
use mathlib.Core.Bool.{false≢true}
use mathlib.Core.Path.{fun_ext}
use bitstar.Base.{
  ℕ, Bool, true, List, [], ◌∷◌, Option, some, ◌≡◌, inl, inr, ap, arith, Bytes, same_bytes,
  same_bytes_iff, Bool-cases, Bool_ext,
}
use bitstar.Filtering.Syntax.{Comparable, ArgPtr}
use bitstar.Memtable.Defs.{
  Event, Bloom, ok, ◌>>=◌, Question, has_tag, has_annotation, restriction_question, joined,
  has_tag_in, has_annotation_in, add_strings, add_pairs, new_mem_table_item, match_restriction,
  match_question,
}

-- The answer of an event to a restriction's question.
abbrev pub event_answer : Event → Question → Bool
event_answer e (has_tag name) = has_tag_in name e.tags
event_answer e (has_annotation key value) = has_annotation_in key value e.annotations

module _ (B : Bloom) where
  open B use {BloomFilter}

  test-add_strings_old :
      (f : BloomFilter) (ss : List Bytes) (t : Bytes)
      → B.test_string f t ≡ true
      → B.test_string (add_strings B f ss) t ≡ true
  test-add_strings_old f [] t h = h
  test-add_strings_old f (s ∷ ss) t h =
      test-add_strings_old (B.add_string f s) ss t (B.test-add f s t (inr h))

  test-add_strings :
      (f : BloomFilter) (ss : List Bytes) (t : Bytes)
      → has_tag_in t ss ≡ true
      → B.test_string (add_strings B f ss) t ≡ true
  unfolding has_tag_in
  test-add_strings f [] t h = absurd (false≢true h)
  test-add_strings f (s ∷ ss) t h = elim (Bool-cases (same_bytes s t)) [
    | inl here ↦
        test-add_strings_old (B.add_string f s) ss t
          (B.test-add f s t (inl ((same_bytes_iff s t).0 here)))
    | inr there ↦ test-add_strings (B.add_string f s) ss t (rw there at h)
  ]

  test-add_pairs_old :
      (f : BloomFilter) (ps : List (Bytes × Bytes)) (t : Bytes)
      → B.test_string f t ≡ true
      → B.test_string (add_pairs B f ps) t ≡ true
  test-add_pairs_old f [] t h = h
  test-add_pairs_old f ((k, v) ∷ ps) t h =
      test-add_pairs_old (B.add_string f (joined k v)) ps t (B.test-add f (joined k v) t (inr h))

  test-add_pairs :
      (f : BloomFilter) (ps : List (Bytes × Bytes)) (key value : Bytes)
      → has_annotation_in key value ps ≡ true
      → B.test_string (add_pairs B f ps) (joined key value) ≡ true
  unfolding has_annotation_in
  test-add_pairs f [] key value h = absurd (false≢true h)
  test-add_pairs f ((k, v) ∷ ps) key value h = elim (Bool-cases (same_bytes k key)) [
    | inl here ↦
        let same_value : same_bytes v value ≡ true = ground arith in
        let same_pair : joined k v ≡ joined key value =
          rw ((same_bytes_iff k key).0 here, (same_bytes_iff v value).0 same_value) in
        test-add_pairs_old (B.add_string f (joined k v)) ps (joined key value)
          (B.test-add f (joined k v) (joined key value) (inl same_pair))
    | inr there ↦ test-add_pairs (B.add_string f (joined k v)) ps key value (ground arith)
  ]

  match_question-event_answer :
      (e : Event) (ts : ℕ) (is_deleted : Bool) (q : Question)
      → match_question B (new_mem_table_item B (some e) ts is_deleted) q ≡ event_answer e q
  match_question-event_answer e ts is_deleted (has_tag name) =
      Bool_ext _ _ (λ h. unfold match_question new_mem_table_item in ground arith)
        (λ h.
          let seen = test-add_strings B.new_with_estimates e.tags name h in
          unfold match_question new_mem_table_item in ground (arith, seen))
  match_question-event_answer e ts is_deleted (has_annotation key value) =
      Bool_ext _ _ (λ h. unfold match_question new_mem_table_item in ground arith)
        (λ h.
          let seen = test-add_pairs B.new_with_estimates e.annotations key value h in
          unfold match_question new_mem_table_item in ground (arith, seen))

  -- On the item of an event `matchRestriction` gives the error of its checks or the event's answer:
  -- the Bloom filters change no result.
  pub match_restriction-event_answer :
      (c : Option Comparable) (a : ArgPtr) (e : Event) (ts : ℕ) (is_deleted : Bool)
      → match_restriction B c a (new_mem_table_item B (some e) ts is_deleted)
        ≡ (restriction_question c a >>= λ q. ok (event_answer e q))
  unfolding match_restriction
  match_restriction-event_answer c a e ts is_deleted =
      ap (λ (f : Question → Bool). restriction_question c a >>= λ q. ok (f q))
        (fun_ext (match_question-event_answer e ts is_deleted))
