-- ===== src/Filtering/Syntax.antt =====
-- filtering/filtering.go: the syntax tree of a filter. A nil pointer is a constructor of its own,
-- or `none` where the type pointed to holds no expression.
use bitstar.Base.{Bool, List, Option, Bytes}

pub record Value : Type 0 where
  pub quoted : Bool
  pub value : Bytes

pub record Member : Type 0 where
  pub value : Option Value
  pub fields : List Value

pub record Comparable : Type 0 where
  pub member : Option Member

-- `Sequences`, `Factors` and `Terms` are the slices of pointers in `Expression`, `Sequence` and
-- `Factor`.
mutual
  pub data Expression : Type 0 where
    expression : Sequences → Expression

  pub data Sequences : Type 0 where
    no_sequences : Sequences
    nil_sequence : Sequences → Sequences
    a_sequence : Sequence → Sequences → Sequences

  pub data Sequence : Type 0 where
    sequence : Factors → Sequence

  pub data Factors : Type 0 where
    no_factors : Factors
    nil_factor : Factors → Factors
    a_factor : Factor → Factors → Factors

  pub data Factor : Type 0 where
    factor : Terms → Factor

  pub data Terms : Type 0 where
    no_terms : Terms
    nil_term : Terms → Terms
    a_term : Term → Terms → Terms

  pub data Term : Type 0 where
    nil_simple : Bool → Term
    term : Bool → Simple → Term

  pub data Simple : Type 0 where
    simple : RestrictionPtr → ExpressionPtr → Simple

  pub data RestrictionPtr : Type 0 where
    nil_restriction : RestrictionPtr
    restriction : Option Comparable → Bytes → ArgPtr → RestrictionPtr

  pub data ArgPtr : Type 0 where
    nil_arg : ArgPtr
    arg : Option Comparable → ExpressionPtr → ArgPtr

  pub data ExpressionPtr : Type 0 where
    nil_expression : ExpressionPtr
    an_expression : Expression → ExpressionPtr

pub record Filter : Type 0 where
  pub expression : ExpressionPtr
