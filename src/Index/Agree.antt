-- ===== src/Index/Agree.antt =====
-- The filter on the index and the filter on an item in memory give the same answer for an event.
use bitstar.Base.{
  ℕ, Bool, true, false, not, Option, none, some, ◌≡◌, refl, sym, ap, ◌∙◌, arith, if◌then◌else◌,
  Bytes, same_bytes, entry_or,
}
use bitstar.Roaring.{Roaring}
use bitstar.Filtering.Syntax.{
  Comparable, ArgPtr, Expression, Sequences, Sequence, Factors, Factor, Terms, Term, Simple,
  expression, no_sequences, nil_sequence, a_sequence, sequence, no_factors, nil_factor, a_factor,
  factor, no_terms, nil_term, a_term, nil_simple, term, simple, nil_restriction, restriction,
  nil_expression, an_expression,
}
use bitstar.Filtering.Whole.{
  IsWhole, IsWholeSequences, IsWholeSequence, IsWholeFactors, IsWholeFactor, IsWholeTerms,
  IsWholeTerm, IsWholeSimple,
}
use bitstar.Memtable.Defs.{
  Event, Bloom, MemTableItem, Outcome, ok, err, ◌>>=◌, Question, has_tag, has_annotation,
  restriction_question, new_mem_table_item, match_restriction, match_expression, match_sequences,
  match_sequence, match_factors, match_factor, match_terms, match_term, match_simple, has_tag_in,
  has_annotation_in,
}
use bitstar.Memtable.Match.{event_answer, match_restriction-event_answer}
use bitstar.Index.Defs.{
  RoaringIndex, same_pair, answer, eval_restriction, eval_expression, eval_sequences, eval_sequence,
  eval_factors, eval_factor, eval_terms, eval_term, eval_simple,
}
use bitstar.Index.Steps.{Agrees, AgreesAnd, AgreesOr, first_and, next_and, first_or, next_or}

-- The index has the event at row `r`: the row is there, and the tags and annotations whose bitmaps
-- hold it are those of the event.
pub record IsIndexed (R : Roaring) (ri : RoaringIndex R.Bitmap) (r : ℕ) (e : Event) : Type 0 where
  pub in_all : R.contains ri.all r ≡ true
  pub tagged :
      (name : Bytes)
      → R.contains (entry_or same_bytes R.new name ri.tags) r ≡ has_tag_in name e.tags
  pub annotated :
      (key value : Bytes)
      → R.contains (entry_or same_pair R.new (key, value) ri.annotations) r
        ≡ has_annotation_in key value e.annotations

module _ (R : Roaring) (B : Bloom) (ri : RoaringIndex R.Bitmap) (r : ℕ) (e : Event) (ts : ℕ)
    (is_deleted : Bool) (indexed : IsIndexed R ri r e) where
  open R use {Bitmap}

  abbrev item : MemTableItem B.BloomFilter
  item = new_mem_table_item B (some e) ts is_deleted

  answer-event_answer : (q : Question) → R.contains (answer R ri q) r ≡ event_answer e q
  answer-event_answer (has_tag name) = unfold answer in indexed.tagged name
  answer-event_answer (has_annotation key value) = unfold answer in indexed.annotated key value

  restriction-Agrees :
      (c : Option Comparable) (a : ArgPtr) (result : Option Bitmap)
      → eval_restriction R ri c a ≡ ok result
      → Agrees R r result (match_restriction B c a item)
  unfolding eval_restriction
  restriction-Agrees c a result h =
      asked (restriction_question c a) (match_restriction B c a item) h
        (match_restriction-event_answer B c a e ts is_deleted)
    where
      asked :
          (m : Outcome Question) (matched : Outcome Bool)
          → (m >>= λ q. ok (some (answer R ri q))) ≡ ok result
          → matched ≡ (m >>= λ q. ok (event_answer e q))
          → Agrees R r result matched
      asked (ok q) matched h k = record {
        bitmap = answer R ri q;
        found = ground arith;
        same_answer = k ∙ ap ok (sym (answer-event_answer q));
      }
      asked (err x) matched h k = absurd (ground arith)

  -- The bitmap of a term: its own, or the rest of all rows.
  term_step :
      (negated : Bool) (x : Outcome (Option Bitmap)) (m : Outcome Bool) (result : Option Bitmap)
      → ((found : Option Bitmap) → x ≡ ok found → Agrees R r found m)
      → (x >>= λ found. elim found [
        | none ↦ ok none
        | some bitmap ↦ if negated then ok (some (R.and_not ri.all bitmap)) else ok (some bitmap)
      ])
        ≡ ok result
      → Agrees R r result (m >>= λ matched. if negated then ok (not matched) else ok matched)
  term_step negated (err y) m result here h = absurd (ground arith)
  term_step negated (ok none) m result here h =
      let a = here none refl in absurd (ground (arith, a.found))
  term_step true (ok (some bitmap)) m result here h =
      let a = here (some bitmap) refl in
      let same = a.found in
      record {
        bitmap = R.and_not ri.all bitmap;
        found = ground arith;
        same_answer =
            ground (arith, a.same_answer, same, indexed.in_all, R.contains-and_not ri.all bitmap r);
      }
  term_step false (ok (some bitmap)) m result here h =
      let a = here (some bitmap) refl in
      record {
        bitmap = bitmap;
        found = ground arith;
        same_answer = ground (arith, a.same_answer, a.found);
      }

  mutual
    unfolding eval_simple match_simple IsWhole

    expression-Agrees :
        (x : Expression)
        → IsWhole x
        → (result : Option Bitmap) → eval_expression R ri x ≡ ok result
        → Agrees R r result (match_expression B x item)
    expression-Agrees (expression no_sequences) w result h = absurd w
    expression-Agrees (expression (nil_sequence ss)) w result h = absurd w
    expression-Agrees (expression (a_sequence s ss)) w result h =
        first_and R r (eval_sequence R ri s) (eval_sequences R ri ss) (match_sequence B s item)
          (match_sequences B ss item) result (sequence-Agrees s w.0)
          (λ res. sequences-Agrees ss w.1 res result) h

    sequences-Agrees :
        (ss : Sequences)
        → IsWholeSequences ss
        → (res : Bitmap) (result : Option Bitmap) → eval_sequences R ri ss (some res) ≡ ok result
        → AgreesAnd R r res result (match_sequences B ss item)
    sequences-Agrees no_sequences w res result h = record {
      bitmap = res;
      rest = true;
      found = ground arith;
      same_answer = refl;
      together = ground arith;
    }
    sequences-Agrees (nil_sequence ss) w res result h = absurd w
    sequences-Agrees (a_sequence s ss) w res result h =
        next_and R r (eval_sequence R ri s) (eval_sequences R ri ss) (match_sequence B s item)
          (match_sequences B ss item) res result (sequence-Agrees s w.0)
          (λ res'. sequences-Agrees ss w.1 res' result) h

    sequence-Agrees :
        (s : Sequence)
        → IsWholeSequence s
        → (result : Option Bitmap) → eval_sequence R ri s ≡ ok result
        → Agrees R r result (match_sequence B s item)
    sequence-Agrees (sequence no_factors) w result h = absurd w
    sequence-Agrees (sequence (nil_factor fs)) w result h = absurd w
    sequence-Agrees (sequence (a_factor f fs)) w result h =
        first_and R r (eval_factor R ri f) (eval_factors R ri fs) (match_factor B f item)
          (match_factors B fs item) result (factor-Agrees f w.0)
          (λ res. factors-Agrees fs w.1 res result) h

    factors-Agrees :
        (fs : Factors)
        → IsWholeFactors fs
        → (res : Bitmap) (result : Option Bitmap) → eval_factors R ri fs (some res) ≡ ok result
        → AgreesAnd R r res result (match_factors B fs item)
    factors-Agrees no_factors w res result h = record {
      bitmap = res;
      rest = true;
      found = ground arith;
      same_answer = refl;
      together = ground arith;
    }
    factors-Agrees (nil_factor fs) w res result h = absurd w
    factors-Agrees (a_factor f fs) w res result h =
        next_and R r (eval_factor R ri f) (eval_factors R ri fs) (match_factor B f item)
          (match_factors B fs item) res result (factor-Agrees f w.0)
          (λ res'. factors-Agrees fs w.1 res' result) h

    factor-Agrees :
        (f : Factor)
        → IsWholeFactor f
        → (result : Option Bitmap) → eval_factor R ri f ≡ ok result
        → Agrees R r result (match_factor B f item)
    factor-Agrees (factor no_terms) w result h = absurd w
    factor-Agrees (factor (nil_term ts)) w result h = absurd w
    factor-Agrees (factor (a_term t ts)) w result h =
        first_or R r (eval_term R ri t) (eval_terms R ri ts) (match_term B t item)
          (match_terms B ts item) result (term-Agrees t w.0) (λ res. terms-Agrees ts w.1 res result)
          h

    terms-Agrees :
        (ts : Terms)
        → IsWholeTerms ts
        → (res : Bitmap) (result : Option Bitmap) → eval_terms R ri ts (some res) ≡ ok result
        → AgreesOr R r res result (match_terms B ts item)
    terms-Agrees no_terms w res result h = record {
      bitmap = res;
      rest = false;
      found = ground arith;
      same_answer = refl;
      together = ground arith;
    }
    terms-Agrees (nil_term ts) w res result h = absurd w
    terms-Agrees (a_term t ts) w res result h =
        next_or R r (eval_term R ri t) (eval_terms R ri ts) (match_term B t item)
          (match_terms B ts item) res result (term-Agrees t w.0)
          (λ res'. terms-Agrees ts w.1 res' result) h

    term-Agrees :
        (t : Term)
        → IsWholeTerm t
        → (result : Option Bitmap) → eval_term R ri t ≡ ok result
        → Agrees R r result (match_term B t item)
    term-Agrees (nil_simple negated) w result h = absurd w
    term-Agrees (term negated s) w result h =
        term_step negated (eval_simple R ri s) (match_simple B s item) result (simple-Agrees s w) h

    simple-Agrees :
        (s : Simple)
        → IsWholeSimple s
        → (result : Option Bitmap) → eval_simple R ri s ≡ ok result
        → Agrees R r result (match_simple B s item)
    simple-Agrees (simple q (an_expression x)) w result h = expression-Agrees x w result h
    simple-Agrees (simple (restriction c o a) nil_expression) w result h =
        restriction-Agrees c a result h
    simple-Agrees (simple nil_restriction nil_expression) w result h = absurd w

  -- At a row where the index has the event, and on a filter without nil pointers and empty lists
  -- that the index evaluates without an error, the index gives a bitmap, and the filter matches the
  -- event in memory exactly when the bitmap holds the row.
  pub eval_expression-match_expression :
      (x : Expression) (result : Option Bitmap)
      → IsWhole x
      → eval_expression R ri x ≡ ok result
      → (bitmap : Bitmap) × (result ≡ some bitmap)
        × (match_expression B x item ≡ ok (R.contains bitmap r))
  eval_expression-match_expression x result w h =
      let a = expression-Agrees x w result h in (a.bitmap, a.found, a.same_answer)
