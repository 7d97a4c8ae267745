-- ===== src/Filtering/Fuel/Descent.antt =====
-- The recursive descent: with eight units of fuel for each byte that is left, and a few for the depth
-- of the method, no method runs out of fuel.
use bitstar.Base.{
  ℕ, zero, suc, ◌+◌, ◌*◌, ◌≤◌, ◌≡◌, ◌⊎◌, refl, true, false, [], Option, none, some, Bytes, arith,
  length, inl, inr,
}
use bitstar.Filtering.Syntax.{
  expression, no_sequences, a_sequence, sequence, no_factors, nil_factor, a_factor, factor,
  no_terms, a_term, term, simple, nil_restriction, restriction, nil_arg, arg, nil_expression,
  an_expression, Filter,
}
use bitstar.Filtering.Lexer.{Kind, Lexer, new_lexer}
use bitstar.Filtering.Result.{ParseError, Result, ok, err, out_of_fuel}
use bitstar.Filtering.Atoms.{same_kind, accept, expect, comparable}
use bitstar.Filtering.Parser.{
  parse_expression, and_sequences, parse_sequence, sequence_factors, parse_factor, or_terms,
  parse_term, parse_simple, parse_restriction, parse_arg, parse_composite, parse_whole,
  parse_filter,
}
use bitstar.Filtering.Fuel.Measure.{
  left, Within, is_some, no_matter, Within-ok, Within-none, Within-some, Within-any, Within-err,
  Within-bind, Within-bind_option, accept-Within, accept-leaves_no_more, expect-Within,
}
use bitstar.Filtering.Fuel.Atoms.{comparable-Within}
use bitstar.Filtering.Fuel.Binds.{
  is_restriction, has_factor, Within-weaken, Within-bind_factors, Within-bind_restriction,
  Within-bind_arg, Within-bind_either,
}

module _ (unquote : Bytes → Option Bytes) where
  mutual
    unfolding parse_expression same_kind

    expression-Within :
        (f : ℕ) (l : Lexer)
        → 8 * left l + 8 ≤ f
        → Within is_some (left l) (parse_expression unquote f l)
    expression-Within zero l h = absurd (omega arith)
    expression-Within (suc f) l h =
        Within-bind_option is_some (left l) (left l) (parse_sequence unquote f l) _
          (sequence-Within f l (omega arith)) (λ l1 h1. Within-none _ (left l) l1 h1)
          (λ first l1 h1.
            Within-bind is_some (left l1) (left l) (and_sequences unquote f l1) _
              (and_sequences-Within f l1 (omega (arith, h, h1)))
              (λ rest l2 h2.
                Within-some (left l) (expression (a_sequence first rest)) l2
                  (omega (arith, h1, h2))))

    and_sequences-Within :
        (f : ℕ) (l : Lexer)
        → 8 * left l + 8 ≤ f
        → Within no_matter (left l) (and_sequences unquote f l)
    and_sequences-Within zero l h = absurd (omega arith)
    and_sequences-Within (suc f) l h =
        Within-bind_option no_matter (left l) (left l) (accept Kind.and l) _
          (accept-Within Kind.and l refl) (λ l1 h1. Within-any (left l) no_sequences l1 h1)
          (λ t l1 h1.
            Within-bind_option no_matter (left l1) (left l) (parse_sequence unquote f l1) _
              (sequence-Within f l1 (omega (arith, h, h1)))
              (λ l2 h2. Within-err no_matter (left l) ParseError.expected_sequence_after_and)
              (λ next l2 h2.
                Within-bind no_matter (left l2) (left l) (and_sequences unquote f l2) _
                  (and_sequences-Within f l2 (omega (arith, h, h1, h2)))
                  (λ rest l3 h3.
                    Within-any (left l) (a_sequence next rest) l3 (omega (arith, h1, h2, h3)))))

    sequence-Within :
        (f : ℕ) (l : Lexer)
        → 8 * left l + 7 ≤ f
        → Within is_some (left l) (parse_sequence unquote f l)
    sequence-Within zero l h = absurd (omega arith)
    sequence-Within (suc f) l h =
        Within-bind_factors is_some (left l) (left l) (sequence_factors unquote f l) _
          (factors-Within f l (omega arith)) (λ l1 h1. Within-none _ (left l) l1 h1)
          (λ fs l1 h1. Within-some (left l) (sequence (nil_factor fs)) l1 h1)
          (λ g fs l1 h1. Within-some (left l) (sequence (a_factor g fs)) l1 h1)

    factors-Within :
        (f : ℕ) (l : Lexer)
        → 8 * left l + 6 ≤ f
        → Within has_factor (left l) (sequence_factors unquote f l)
    factors-Within zero l h = absurd (omega arith)
    factors-Within (suc f) l h =
        Within-bind_option has_factor (left l) (left l) (parse_factor unquote f l) _
          (factor-Within f l (omega arith))
          (λ l1 h1. Within-ok has_factor (left l) no_factors l1 h1 (λ e. absurd (cc e)))
          (λ g l1 h1.
            Within-bind has_factor (left l1) (left l) (sequence_factors unquote f l1) _
              (Within-weaken has_factor (left l1) (sequence_factors unquote f l1)
                (factors-Within f l1 (omega (arith, h, h1))))
              (λ rest l2 h2.
                Within-ok has_factor (left l) (a_factor g rest) l2 (omega (arith, h1, h2))
                  (λ e. omega (arith, h1, h2))))

    factor-Within :
        (f : ℕ) (l : Lexer)
        → 8 * left l + 5 ≤ f
        → Within is_some (left l) (parse_factor unquote f l)
    factor-Within zero l h = absurd (omega arith)
    factor-Within (suc f) l h =
        Within-bind_option is_some (left l) (left l) (parse_term unquote f l) _
          (term-Within f l (omega arith)) (λ l1 h1. Within-none _ (left l) l1 h1)
          (λ first l1 h1.
            Within-bind is_some (left l1) (left l) (or_terms unquote f l1) _
              (or_terms-Within f l1 (omega (arith, h, h1)))
              (λ rest l2 h2.
                Within-some (left l) (factor (a_term first rest)) l2 (omega (arith, h1, h2))))

    or_terms-Within :
        (f : ℕ) (l : Lexer) → 8 * left l + 5 ≤ f → Within no_matter (left l) (or_terms unquote f l)
    or_terms-Within zero l h = absurd (omega arith)
    or_terms-Within (suc f) l h =
        Within-bind_option no_matter (left l) (left l) (accept Kind.or l) _
          (accept-Within Kind.or l refl) (λ l1 h1. Within-any (left l) no_terms l1 h1)
          (λ t l1 h1.
            Within-bind_option no_matter (left l1) (left l) (parse_term unquote f l1) _
              (term-Within f l1 (omega (arith, h, h1)))
              (λ l2 h2. Within-err no_matter (left l) ParseError.expected_term_after_or)
              (λ next l2 h2.
                Within-bind no_matter (left l2) (left l) (or_terms unquote f l2) _
                  (or_terms-Within f l2 (omega (arith, h, h1, h2)))
                  (λ rest l3 h3.
                    Within-any (left l) (a_term next rest) l3 (omega (arith, h1, h2, h3)))))

    term-Within :
        (f : ℕ) (l : Lexer) → 8 * left l + 4 ≤ f → Within is_some (left l) (parse_term unquote f l)
    term-Within zero l h = absurd (omega arith)
    term-Within (suc f) l h =
        Within-bind_option is_some (left l) (left l) (accept Kind.negate l) _
          (accept-Within Kind.negate l refl)
          (λ l1 h1.
            Within-bind_option is_some (left l1) (left l) (parse_simple unquote f l1) _
              (simple-Within f l1 (omega (arith, h, h1)))
              (λ l2 h2. Within-none _ (left l) l2 (omega (arith, h1, h2)))
              (λ inner l2 h2. Within-some (left l) (term false inner) l2 (omega (arith, h1, h2))))
          (λ t l1 h1.
            Within-bind_option is_some (left l1) (left l) (parse_simple unquote f l1) _
              (simple-Within f l1 (omega (arith, h, h1)))
              (λ l2 h2. Within-err is_some (left l) ParseError.expected_simple_after_negation)
              (λ inner l2 h2. Within-some (left l) (term true inner) l2 (omega (arith, h1, h2))))

    simple-Within :
        (f : ℕ) (l : Lexer)
        → 8 * left l + 3 ≤ f
        → Within is_some (left l) (parse_simple unquote f l)
    simple-Within zero l h = absurd (omega arith)
    simple-Within (suc f) l h =
        Within-bind_restriction is_some (left l) (left l) (parse_restriction unquote f l) _
          (restriction-Within f l (omega arith))
          (λ l1 h1.
            Within-bind_option is_some (left l1) (left l) (parse_composite unquote f l1) _
              (composite-Within f l1 (omega (arith, h, h1)))
              (λ l2 h2. Within-none _ (left l) l2 (omega (arith, h1, h2)))
              (λ e l2 h2.
                Within-some (left l) (simple nil_restriction (an_expression e)) l2
                  (omega (arith, h1, h2))))
          (λ c o a l1 h1. Within-some (left l) (simple (restriction c o a) nil_expression) l1 h1)

    restriction-Within :
        (f : ℕ) (l : Lexer)
        → 8 * left l + 2 ≤ f
        → Within is_restriction (left l) (parse_restriction unquote f l)
    restriction-Within zero l h = absurd (omega arith)
    restriction-Within (suc f) l h =
        Within-bind_option is_restriction (left l) (left l) (comparable unquote f l) _
          (comparable-Within unquote f l (omega arith))
          (λ l1 h1. Within-ok is_restriction (left l) nil_restriction l1 h1 (λ e. absurd (cc e)))
          (λ c l1 h1.
            Within-bind_option is_restriction (left l1) (left l) (accept Kind.comparator l1) _
              (accept-Within Kind.comparator l1 refl)
              (λ l2 h2.
                Within-ok is_restriction (left l) (restriction (some c) [] nil_arg) l2
                  (omega (arith, h1, h2)) (λ e. omega (arith, h1, h2)))
              (λ op l2 h2.
                Within-bind_arg is_restriction (left l2) (left l) (parse_arg unquote f l2) _
                  (arg-Within f l2 (omega (arith, h, h1, h2)))
                  (λ l3 h3.
                    Within-err is_restriction (left l) (ParseError.expected_arg_after op.value))
                  (λ right e l3 h3.
                    Within-ok is_restriction (left l) (restriction (some c) op.value (arg right e))
                      l3 (omega (arith, h1, h2, h3)) (λ e'. omega (arith, h1, h2, h3)))))

    arg-Within :
        (f : ℕ) (l : Lexer) → 8 * left l + 2 ≤ f → Within no_matter (left l) (parse_arg unquote f l)
    arg-Within zero l h = absurd (omega arith)
    arg-Within (suc f) l h =
        Within-bind_option no_matter (left l) (left l) (comparable unquote f l) _
          (comparable-Within unquote f l (omega arith))
          (λ l1 h1.
            Within-bind_option no_matter (left l1) (left l) (parse_composite unquote f l1) _
              (composite-Within f l1 (omega (arith, h, h1)))
              (λ l2 h2. Within-any (left l) nil_arg l2 (omega (arith, h1, h2)))
              (λ e l2 h2.
                Within-any (left l) (arg none (an_expression e)) l2 (omega (arith, h1, h2))))
          (λ right l1 h1.
            Within-any (left l) (arg (some right) nil_expression) l1 (omega (arith, h1)))

    composite-Within :
        (f : ℕ) (l : Lexer)
        → 8 * left l + 1 ≤ f
        → Within is_some (left l) (parse_composite unquote f l)
    composite-Within zero l h = absurd (omega arith)
    composite-Within (suc f) l h =
        Within-bind_option is_some (left l) (left l) (accept Kind.lparen l) _
          (accept-Within Kind.lparen l refl) (λ l1 h1. Within-none _ (left l) l1 h1)
          (λ t l1 h1.
            Within-bind_option is_some (left l1) (left l) (parse_expression unquote f l1) _
              (expression-Within f l1 (omega (arith, h, h1)))
              (λ l2 h2. Within-err is_some (left l) ParseError.expected_expression)
              (λ inner l2 h2.
                Within-bind is_some (left l2) (left l) (expect Kind.rparen l2) _
                  (expect-Within Kind.rparen l2)
                  (λ u l3 h3. Within-some (left l) inner l3 (omega (arith, h1, h2, h3)))))

  whole-Within :
      (f : ℕ) (l : Lexer) → 8 * left l + 8 ≤ f → Within no_matter (left l) (parse_whole unquote f l)
  unfolding parse_whole
  whole-Within f l h =
      Within-bind_either no_matter (left l) (left l) (accept Kind.end l) _
        (accept-leaves_no_more Kind.end l)
        (λ l1 h1.
          Within-bind_option no_matter (left l1) (left l) (parse_expression unquote f l1) _
            (expression-Within f l1 (omega (arith, h, h1)))
            (λ l2 h2.
              Within-bind no_matter (left l2) (left l) (expect Kind.end l2) _
                (expect-Within Kind.end l2)
                (λ u l3 h3.
                  Within-any (left l) (record { expression = nil_expression }) l3
                    (omega (arith, h1, h2, h3))))
            (λ e l2 h2.
              Within-bind no_matter (left l2) (left l) (expect Kind.end l2) _
                (expect-Within Kind.end l2)
                (λ u l3 h3.
                  Within-any (left l) (record { expression = an_expression e }) l3
                    (omega (arith, h1, h2, h3)))))
        (λ t l1 h1. Within-any (left l) (record { expression = nil_expression }) l1 h1)

  result_of_Within :
      (r : Result Filter) (n : ℕ)
      → Within no_matter n r
      → ((filter : Filter) × (l : Lexer) × (r ≡ ok filter l)) ⊎ ((e : ParseError) × (r ≡ err e))
  unfolding Within
  result_of_Within (ok filter l) n h = inl (filter, l, refl)
  result_of_Within (err e) n h = inr (e, refl)
  result_of_Within out_of_fuel n h = absurd h

  -- `ParseFilter` ends on every text, whatever `strconv.Unquote` does: with a filter or with an
  -- error, and never because the fuel of the model has run out.
  pub parse_filter_returns :
      (text : Bytes)
      → ((filter : Filter) × (l : Lexer) × (parse_filter unquote text ≡ ok filter l))
        ⊎ ((e : ParseError) × (parse_filter unquote text ≡ err e))
  unfolding parse_filter new_lexer left
  parse_filter_returns text =
      result_of_Within (parse_filter unquote text) (left (new_lexer text))
        (whole-Within (8 * length text + 8) (new_lexer text) (omega arith))
