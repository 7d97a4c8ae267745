-- ===== src/Filtering/Parser.antt =====
-- filtering/filtering.go: the recursive descent. `unquote` is `strconv.Unquote`. A pointer that the
-- methods return is an option.
use bitstar.Base.{ℕ, zero, suc, ◌+◌, ◌*◌, true, false, [], Option, none, some, length, Bytes}
use bitstar.Filtering.Syntax.{
  Expression, Sequences, Sequence, Factors, Factor, Terms, Term, Simple, RestrictionPtr, ArgPtr,
  expression, no_sequences, a_sequence, sequence, no_factors, a_factor, factor, no_terms, a_term,
  term, simple, nil_restriction, restriction, nil_arg, arg, nil_expression, an_expression, Filter,
}
use bitstar.Filtering.Lexer.{Kind, new_lexer}
use bitstar.Filtering.Result.{
  ParseError, Result, out_of_fuel, Parser, pure, fail, bind, ◌>>=◌, ◌>>◌,
}
use bitstar.Filtering.Atoms.{expect, accept, comparable}

module _ (unquote : Bytes → Option Bytes) where
  unfoldable mutual
    unfolding comparable

    -- `expression`.
    pub parse_expression : ℕ → Parser (Option Expression)
    parse_expression zero l = out_of_fuel
    parse_expression (suc f) l = bind (parse_sequence f l) λ s. elim s [
      | none ↦ pure none
      | some first ↦ do rest ← and_sequences f; pure (some (expression (a_sequence first rest)))
    ]

    -- The loop of `expression`.
    pub and_sequences : ℕ → Parser Sequences
    and_sequences zero l = out_of_fuel
    and_sequences (suc f) l = bind (accept Kind.and l) λ and. elim and [
      | none ↦ pure no_sequences
      | some _ ↦ do
        s ← parse_sequence f
        elim s [
          | none ↦ fail ParseError.expected_sequence_after_and
          | some next ↦ do rest ← and_sequences f; pure (a_sequence next rest)
        ]
    ]

    -- `sequence`.
    pub parse_sequence : ℕ → Parser (Option Sequence)
    parse_sequence zero l = out_of_fuel
    parse_sequence (suc f) l = bind (sequence_factors f l) λ factors. elim factors [
      | no_factors ↦ pure none
      | some_factors ↦ pure (some (sequence some_factors))
    ]

    -- The loop of `sequence`.
    pub sequence_factors : ℕ → Parser Factors
    sequence_factors zero l = out_of_fuel
    sequence_factors (suc f) l = bind (parse_factor f l) λ next. elim next [
      | none ↦ pure no_factors
      | some t ↦ do rest ← sequence_factors f; pure (a_factor t rest)
    ]

    -- `factor`.
    pub parse_factor : ℕ → Parser (Option Factor)
    parse_factor zero l = out_of_fuel
    parse_factor (suc f) l = bind (parse_term f l) λ t. elim t [
      | none ↦ pure none
      | some first ↦ do rest ← or_terms f; pure (some (factor (a_term first rest)))
    ]

    -- The loop of `factor`.
    pub or_terms : ℕ → Parser Terms
    or_terms zero l = out_of_fuel
    or_terms (suc f) l = bind (accept Kind.or l) λ or. elim or [
      | none ↦ pure no_terms
      | some _ ↦ do
        t ← parse_term f
        elim t [
          | none ↦ fail ParseError.expected_term_after_or
          | some next ↦ do rest ← or_terms f; pure (a_term next rest)
        ]
    ]

    -- `term`.
    pub parse_term : ℕ → Parser (Option Term)
    parse_term zero l = out_of_fuel
    parse_term (suc f) l = bind (accept Kind.negate l) λ n. do
      s ← parse_simple f
      elim s [
        | some inner ↦ pure (some (term (elim n [ some _ ↦ true | none ↦ false ]) inner))
        | none ↦ elim n [
          | some _ ↦ fail ParseError.expected_simple_after_negation
          | none ↦ pure none
        ]
      ]

    -- `simple`.
    pub parse_simple : ℕ → Parser (Option Simple)
    parse_simple zero l = out_of_fuel
    parse_simple (suc f) l = bind (parse_restriction f l) λ r. elim r [
      | restriction c o a ↦ pure (some (simple (restriction c o a) nil_expression))
      | nil_restriction ↦ do
        c ← parse_composite f
        elim c [
          | none ↦ pure none
          | some e ↦ pure (some (simple nil_restriction (an_expression e)))
        ]
    ]

    -- `restriction`.
    pub parse_restriction : ℕ → Parser RestrictionPtr
    parse_restriction zero l = out_of_fuel
    parse_restriction (suc f) l = bind (comparable unquote f l) λ c. elim c [
      | none ↦ pure nil_restriction
      | some left ↦ do
        comparator ← accept Kind.comparator
        elim comparator [
          | none ↦ pure (restriction (some left) [] nil_arg)
          | some op ↦ do
            a ← parse_arg f
            elim a [
              | nil_arg ↦ fail (ParseError.expected_arg_after op.value)
              | arg right e ↦ pure (restriction (some left) op.value (arg right e))
            ]
        ]
    ]

    -- `arg`.
    pub parse_arg : ℕ → Parser ArgPtr
    parse_arg zero l = out_of_fuel
    parse_arg (suc f) l = bind (comparable unquote f l) λ c. elim c [
      | some right ↦ pure (arg (some right) nil_expression)
      | none ↦ do
        composite ← parse_composite f
        elim composite [ none ↦ pure nil_arg | some e ↦ pure (arg none (an_expression e)) ]
    ]

    -- `composite`.
    pub parse_composite : ℕ → Parser (Option Expression)
    parse_composite zero l = out_of_fuel
    parse_composite (suc f) l = bind (accept Kind.lparen l) λ lparen. elim lparen [
      | none ↦ pure none
      | some _ ↦ do
        e ← parse_expression f
        elim e [
          | none ↦ fail ParseError.expected_expression
          | some inner ↦ do expect Kind.rparen; pure (some inner)
        ]
    ]

  -- `filter`.
  unfoldable pub parse_whole : ℕ → Parser Filter
  unfolding parse_expression expect accept
  parse_whole f = do
    end ← accept Kind.end
    elim end [
      | some _ ↦ pure (record { expression = nil_expression })
      | none ↦ do
        e ← parse_expression f
        expect Kind.end
        pure (record { expression = elim e [ none ↦ nil_expression | some e' ↦ an_expression e' ] })
    ]

  -- `ParseFilter`.
  unfoldable pub parse_filter : Bytes → Result Filter
  unfolding parse_whole new_lexer
  parse_filter text = parse_whole (8 * length text + 8) (new_lexer text)
