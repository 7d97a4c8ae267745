-- ===== src/Filtering/Built.antt =====
-- What the parser builds has no nil pointer and no empty list.
use bitstar.Base.{ℕ, zero, suc, ◌+◌, ◌*◌, length, ◌≡◌, Option, Bytes}
use bitstar.Filtering.Syntax.{Expression, an_expression, Filter}
use bitstar.Filtering.Whole.{
  IsWhole, IsWholeSequences, IsWholeSequence, IsWholeFactors, IsWholeFactor, IsWholeTerms,
  IsWholeTerm, IsWholeSimple,
}
use bitstar.Filtering.Lexer.{Kind, Lexer, new_lexer}
use bitstar.Filtering.Result.{Result, ok}
use bitstar.Filtering.Atoms.{accept, expect}
use bitstar.Filtering.Parser.{
  parse_expression, and_sequences, parse_sequence, sequence_factors, parse_factor, or_terms,
  parse_term, parse_simple, parse_restriction, parse_composite, parse_whole, parse_filter,
}
use bitstar.Filtering.Gives.{
  Gives, IfAny, IfAnyExpression, Gives-bind, Gives-bind_any, Gives-bind_option, Gives-bind_either,
  Gives-bind_factors, Gives-bind_restriction,
}

module _ (unquote : Bytes → Option Bytes) where
  mutual
    unfolding parse_expression Gives IsWhole

    expression-Gives : (f : ℕ) (l : Lexer) → Gives (IfAny IsWhole) (parse_expression unquote f l)
    expression-Gives zero l = tt
    expression-Gives (suc f) l =
        Gives-bind_option IsWholeSequence (IfAny IsWhole) (parse_sequence unquote f l) _
          (sequence-Gives f l) (λ l1. tt)
          (λ first l1 h.
            Gives-bind IsWholeSequences (IfAny IsWhole) (and_sequences unquote f l1) _
              (and_sequences-Gives f l1) (λ rest l2 h2. (h, h2)))

    and_sequences-Gives : (f : ℕ) (l : Lexer) → Gives IsWholeSequences (and_sequences unquote f l)
    and_sequences-Gives zero l = tt
    and_sequences-Gives (suc f) l =
        Gives-bind_either IsWholeSequences (accept Kind.and l) _ (λ l1. tt)
          (λ t l1.
            Gives-bind_option IsWholeSequence IsWholeSequences (parse_sequence unquote f l1) _
              (sequence-Gives f l1) (λ l2. tt)
              (λ next l2 h.
                Gives-bind IsWholeSequences IsWholeSequences (and_sequences unquote f l2) _
                  (and_sequences-Gives f l2) (λ rest l3 h3. (h, h3))))

    sequence-Gives :
        (f : ℕ) (l : Lexer) → Gives (IfAny IsWholeSequence) (parse_sequence unquote f l)
    sequence-Gives zero l = tt
    sequence-Gives (suc f) l =
        Gives-bind_factors (IfAny IsWholeSequence) (sequence_factors unquote f l) _
          (factors-Gives f l) (λ l1. tt) (λ g fs l1 h. h)

    factors-Gives : (f : ℕ) (l : Lexer) → Gives IsWholeFactors (sequence_factors unquote f l)
    factors-Gives zero l = tt
    factors-Gives (suc f) l =
        Gives-bind_option IsWholeFactor IsWholeFactors (parse_factor unquote f l) _
          (factor-Gives f l) (λ l1. tt)
          (λ g l1 h.
            Gives-bind IsWholeFactors IsWholeFactors (sequence_factors unquote f l1) _
              (factors-Gives f l1) (λ rest l2 h2. (h, h2)))

    factor-Gives : (f : ℕ) (l : Lexer) → Gives (IfAny IsWholeFactor) (parse_factor unquote f l)
    factor-Gives zero l = tt
    factor-Gives (suc f) l =
        Gives-bind_option IsWholeTerm (IfAny IsWholeFactor) (parse_term unquote f l) _
          (term-Gives f l) (λ l1. tt)
          (λ first l1 h.
            Gives-bind IsWholeTerms (IfAny IsWholeFactor) (or_terms unquote f l1) _
              (or_terms-Gives f l1) (λ rest l2 h2. (h, h2)))

    or_terms-Gives : (f : ℕ) (l : Lexer) → Gives IsWholeTerms (or_terms unquote f l)
    or_terms-Gives zero l = tt
    or_terms-Gives (suc f) l =
        Gives-bind_either IsWholeTerms (accept Kind.or l) _ (λ l1. tt)
          (λ t l1.
            Gives-bind_option IsWholeTerm IsWholeTerms (parse_term unquote f l1) _ (term-Gives f l1)
              (λ l2. tt)
              (λ next l2 h.
                Gives-bind IsWholeTerms IsWholeTerms (or_terms unquote f l2) _ (or_terms-Gives f l2)
                  (λ rest l3 h3. (h, h3))))

    term-Gives : (f : ℕ) (l : Lexer) → Gives (IfAny IsWholeTerm) (parse_term unquote f l)
    term-Gives zero l = tt
    term-Gives (suc f) l =
        Gives-bind_either (IfAny IsWholeTerm) (accept Kind.negate l) _
          (λ l1.
            Gives-bind_option IsWholeSimple (IfAny IsWholeTerm) (parse_simple unquote f l1) _
              (simple-Gives f l1) (λ l2. tt) (λ inner l2 h. h))
          (λ t l1.
            Gives-bind_option IsWholeSimple (IfAny IsWholeTerm) (parse_simple unquote f l1) _
              (simple-Gives f l1) (λ l2. tt) (λ inner l2 h. h))

    simple-Gives : (f : ℕ) (l : Lexer) → Gives (IfAny IsWholeSimple) (parse_simple unquote f l)
    simple-Gives zero l = tt
    simple-Gives (suc f) l =
        Gives-bind_restriction (IfAny IsWholeSimple) (parse_restriction unquote f l) _
          (λ l1.
            Gives-bind_option IsWhole (IfAny IsWholeSimple) (parse_composite unquote f l1) _
              (composite-Gives f l1) (λ l2. tt) (λ e l2 h. h))
          (λ c o a l1. tt)

    composite-Gives : (f : ℕ) (l : Lexer) → Gives (IfAny IsWhole) (parse_composite unquote f l)
    composite-Gives zero l = tt
    composite-Gives (suc f) l =
        Gives-bind_either (IfAny IsWhole) (accept Kind.lparen l) _ (λ l1. tt)
          (λ t l1.
            Gives-bind_option IsWhole (IfAny IsWhole) (parse_expression unquote f l1) _
              (expression-Gives f l1) (λ l2. tt)
              (λ inner l2 h. Gives-bind_any (IfAny IsWhole) (expect Kind.rparen l2) _ (λ u l3. h)))

  whole-Gives :
      (f : ℕ) (l : Lexer)
      → Gives (λ filter. IfAnyExpression filter.expression) (parse_whole unquote f l)
  unfolding parse_whole Gives
  whole-Gives f l =
      let P : Filter → Type 0 = λ filter. IfAnyExpression filter.expression in
      Gives-bind_either P (accept Kind.end l) _
        (λ l1.
          Gives-bind_option IsWhole P (parse_expression unquote f l1) _ (expression-Gives f l1)
            (λ l2. Gives-bind_any P (expect Kind.end l2) _ (λ u l3. tt))
            (λ e l2 h. Gives-bind_any P (expect Kind.end l2) _ (λ u l3. h)))
        (λ t l1. tt)

  result_of_Gives :
      (r : Result Filter) (filter : Filter) (l : Lexer) (e : Expression)
      → Gives (λ filter'. IfAnyExpression filter'.expression) r
      → r ≡ ok filter l
      → filter.expression ≡ an_expression e
      → IsWhole e
  unfolding Gives
  result_of_Gives r filter l e h same has =
      let whole : IfAnyExpression filter.expression = rw same at h in rw has at whole

  -- The expression of a filter that `ParseFilter` returns has no nil pointer and no empty list.
  pub parse_filter-IsWhole :
      (text : Bytes) (filter : Filter) (l : Lexer) (e : Expression)
      → parse_filter unquote text ≡ ok filter l
      → filter.expression ≡ an_expression e
      → IsWhole e
  unfolding parse_filter new_lexer
  parse_filter-IsWhole text filter l e same has =
      result_of_Gives (parse_filter unquote text) filter l e
        (whole-Gives (8 * length text + 8) (new_lexer text)) same has
