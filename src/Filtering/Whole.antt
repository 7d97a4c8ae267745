-- ===== src/Filtering/Whole.antt =====
-- Filters with no nil pointer and no empty list, as the parser builds them.
use bitstar.Filtering.Syntax.{
  Expression, Sequences, Sequence, Factors, Factor, Terms, Term, Simple, expression, no_sequences,
  nil_sequence, a_sequence, sequence, no_factors, nil_factor, a_factor, factor, no_terms, nil_term,
  a_term, nil_simple, term, simple, nil_restriction, restriction, nil_expression, an_expression,
}

unfoldable mutual
  pub IsWhole : Expression → Type 0
  IsWhole (expression no_sequences) = ⊥
  IsWhole (expression (nil_sequence ss)) = ⊥
  IsWhole (expression (a_sequence s ss)) = IsWholeSequence s × IsWholeSequences ss

  pub IsWholeSequences : Sequences → Type 0
  IsWholeSequences no_sequences = Unit
  IsWholeSequences (nil_sequence ss) = ⊥
  IsWholeSequences (a_sequence s ss) = IsWholeSequence s × IsWholeSequences ss

  pub IsWholeSequence : Sequence → Type 0
  IsWholeSequence (sequence no_factors) = ⊥
  IsWholeSequence (sequence (nil_factor fs)) = ⊥
  IsWholeSequence (sequence (a_factor f fs)) = IsWholeFactor f × IsWholeFactors fs

  pub IsWholeFactors : Factors → Type 0
  IsWholeFactors no_factors = Unit
  IsWholeFactors (nil_factor fs) = ⊥
  IsWholeFactors (a_factor f fs) = IsWholeFactor f × IsWholeFactors fs

  pub IsWholeFactor : Factor → Type 0
  IsWholeFactor (factor no_terms) = ⊥
  IsWholeFactor (factor (nil_term ts)) = ⊥
  IsWholeFactor (factor (a_term t ts)) = IsWholeTerm t × IsWholeTerms ts

  pub IsWholeTerms : Terms → Type 0
  IsWholeTerms no_terms = Unit
  IsWholeTerms (nil_term ts) = ⊥
  IsWholeTerms (a_term t ts) = IsWholeTerm t × IsWholeTerms ts

  pub IsWholeTerm : Term → Type 0
  IsWholeTerm (nil_simple negated) = ⊥
  IsWholeTerm (term negated s) = IsWholeSimple s

  pub IsWholeSimple : Simple → Type 0
  IsWholeSimple (simple r (an_expression e)) = IsWhole e
  IsWholeSimple (simple (restriction c o a) nil_expression) = Unit
  IsWholeSimple (simple nil_restriction nil_expression) = ⊥
