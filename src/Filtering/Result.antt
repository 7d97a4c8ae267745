-- ===== src/Filtering/Result.antt =====
-- What a parsing method returns: a value with the lexer that it leaves, an error, or the end of the
-- fuel, which has no counterpart in the program.
use bitstar.Base.{Bytes}
use bitstar.Filtering.Lexer.{Lexer, Kind}

-- The messages, without their text.
pub data ParseError : Type 0 where
  unable_to_lex : ParseError
  expected : Kind → Kind → ParseError
  expected_sequence_after_and : ParseError
  expected_term_after_or : ParseError
  expected_simple_after_negation : ParseError
  expected_arg_after : Bytes → ParseError
  expected_value_after_dot : ParseError
  unquoting : ParseError
  expected_expression : ParseError

pub data Result {ℓ} (A : Type ℓ) : Type ℓ where
  ok : A → Lexer → Result A
  err : ParseError → Result A
  out_of_fuel : Result A

abbrev pub Parser {ℓ} : Type ℓ → Type ℓ
Parser A = Lexer → Result A

abbrev pub pure {ℓ} : {A : Type ℓ} → A → Parser A
pure a l = ok a l

abbrev pub fail {ℓ} : {A : Type ℓ} → ParseError → Parser A
fail e l = err e

abbrev pub bind {ℓ κ} : {A : Type ℓ} {B : Type κ} → Result A → (A → Parser B) → Result B
bind (ok a l) f = f a l
bind (err e) f = err e
bind out_of_fuel f = out_of_fuel

infixl 1 ◌>>=◌ ◌>>◌
abbrev pub ◌>>=◌ {ℓ κ} : {A : Type ℓ} {B : Type κ} → Parser A → (A → Parser B) → Parser B
p >>= f = λ l. bind (p l) f

abbrev pub ◌>>◌ {ℓ κ} : {A : Type ℓ} {B : Type κ} → Parser A → Parser B → Parser B
p >> q = p >>= λ _. q
