-- ===== src/Filtering/Gives.antt =====
-- A property of what a parsing method returns, and what follows a result that has it.
use bitstar.Base.{Option, none, some, Bytes}
use bitstar.Filtering.Syntax.{
  Comparable, Factors, Factor, RestrictionPtr, ArgPtr, ExpressionPtr, no_factors, nil_factor,
  a_factor, nil_restriction, restriction, nil_expression, an_expression,
}
use bitstar.Filtering.Whole.{IsWhole, IsWholeFactors, IsWholeFactor}
use bitstar.Filtering.Lexer.{Lexer}
use bitstar.Filtering.Result.{Result, ok, err, out_of_fuel, Parser, bind}

-- What is returned has the property.
unfoldable pub Gives {ℓ} : {A : Type ℓ} → (A → Type 0) → Result A → Type 0
Gives P (ok a l) = P a
Gives P (err e) = Unit
Gives P out_of_fuel = Unit

-- A pointer that is nil, or to something with the property.
abbrev pub IfAny {ℓ} : {A : Type ℓ} → (A → Type 0) → Option A → Type 0
IfAny P none = Unit
IfAny P (some a) = P a

abbrev pub IfAnyExpression : ExpressionPtr → Type 0
IfAnyExpression nil_expression = Unit
IfAnyExpression (an_expression e) = IsWhole e

pub Gives-bind {ℓ κ} :
    {A : Type ℓ} {B : Type κ} (P : A → Type 0) (Q : B → Type 0) (r : Result A) (f : A → Parser B)
    → Gives P r
    → ((a : A) (l : Lexer) → P a → Gives Q (f a l))
    → Gives Q (bind r f)
unfolding Gives
Gives-bind P Q (ok a l) f h next = next a l h
Gives-bind P Q (err e) f h next = tt
Gives-bind P Q out_of_fuel f h next = tt

-- A result of which nothing is known, and a pointer.
pub Gives-bind_any {ℓ κ} :
    {A : Type ℓ} {B : Type κ} (Q : B → Type 0) (r : Result A) (f : A → Parser B)
    → ((a : A) (l : Lexer) → Gives Q (f a l))
    → Gives Q (bind r f)
unfolding Gives
Gives-bind_any Q (ok a l) f next = next a l
Gives-bind_any Q (err e) f next = tt
Gives-bind_any Q out_of_fuel f next = tt

pub Gives-bind_option {ℓ κ} :
    {A : Type ℓ} {B : Type κ} (P : A → Type 0) (Q : B → Type 0) (r : Result (Option A))
    (f : Option A → Parser B)
    → Gives (IfAny P) r
    → ((l : Lexer) → Gives Q (f none l))
    → ((a : A) (l : Lexer) → P a → Gives Q (f (some a) l))
    → Gives Q (bind r f)
unfolding Gives
Gives-bind_option P Q (ok none l) f h on_none on_some = on_none l
Gives-bind_option P Q (ok (some a) l) f h on_none on_some = on_some a l h
Gives-bind_option P Q (err e) f h on_none on_some = tt
Gives-bind_option P Q out_of_fuel f h on_none on_some = tt

pub Gives-bind_either {ℓ κ} :
    {A : Type ℓ} {B : Type κ} (Q : B → Type 0) (r : Result (Option A)) (f : Option A → Parser B)
    → ((l : Lexer) → Gives Q (f none l))
    → ((a : A) (l : Lexer) → Gives Q (f (some a) l))
    → Gives Q (bind r f)
unfolding Gives
Gives-bind_either Q (ok none l) f on_none on_some = on_none l
Gives-bind_either Q (ok (some a) l) f on_none on_some = on_some a l
Gives-bind_either Q (err e) f on_none on_some = tt
Gives-bind_either Q out_of_fuel f on_none on_some = tt

pub Gives-bind_factors {κ} :
    {B : Type κ} (Q : B → Type 0) (r : Result Factors) (f : Factors → Parser B)
    → Gives IsWholeFactors r
    → ((l : Lexer) → Gives Q (f no_factors l))
    → ((g : Factor) (fs : Factors) (l : Lexer)
        → IsWholeFactor g × IsWholeFactors fs
        → Gives Q (f (a_factor g fs) l))
    → Gives Q (bind r f)
unfolding Gives IsWhole
Gives-bind_factors Q (ok no_factors l) f h on_none on_factor = on_none l
Gives-bind_factors Q (ok (nil_factor fs) l) f h on_none on_factor = absurd h
Gives-bind_factors Q (ok (a_factor g fs) l) f h on_none on_factor = on_factor g fs l h
Gives-bind_factors Q (err e) f h on_none on_factor = tt
Gives-bind_factors Q out_of_fuel f h on_none on_factor = tt

pub Gives-bind_restriction {κ} :
    {B : Type κ} (Q : B → Type 0) (r : Result RestrictionPtr) (f : RestrictionPtr → Parser B)
    → ((l : Lexer) → Gives Q (f nil_restriction l))
    → ((c : Option Comparable) (o : Bytes) (a : ArgPtr) (l : Lexer)
        → Gives Q (f (restriction c o a) l))
    → Gives Q (bind r f)
unfolding Gives
Gives-bind_restriction Q (ok nil_restriction l) f on_nil on_restriction = on_nil l
Gives-bind_restriction Q (ok (restriction c o a) l) f on_nil on_restriction = on_restriction c o a l
Gives-bind_restriction Q (err e) f on_nil on_restriction = tt
Gives-bind_restriction Q out_of_fuel f on_nil on_restriction = tt
