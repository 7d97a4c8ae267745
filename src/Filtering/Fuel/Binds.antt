-- ===== src/Filtering/Fuel/Binds.antt =====
-- What follows the results of the methods that return no plain pointer.
use bitstar.Base.{ℕ, ◌<◌, ◌≤◌, refl, Bool, true, false, Option, none, some, Bytes}
use bitstar.Filtering.Syntax.{
  Factors, Factor, RestrictionPtr, ArgPtr, Comparable, ExpressionPtr, no_factors, nil_factor,
  a_factor, nil_restriction, restriction, nil_arg, arg,
}
use bitstar.Filtering.Lexer.{Lexer}
use bitstar.Filtering.Result.{Result, ok, err, out_of_fuel, Parser, bind}
use bitstar.Filtering.Fuel.Measure.{left, Within, no_matter}

abbrev pub is_restriction : RestrictionPtr → Bool
is_restriction nil_restriction = false
is_restriction (restriction c o a) = true

abbrev pub has_factor : Factors → Bool
has_factor no_factors = false
has_factor (nil_factor fs) = true
has_factor (a_factor f fs) = true

pub Within-weaken {ℓ} :
    {A : Type ℓ} (takes : A → Bool) (n : ℕ) (r : Result A) → Within takes n r → Within no_matter n r
unfolding Within
Within-weaken takes n (ok a l) h = (h.0, λ e. absurd (cc e))
Within-weaken takes n (err e) h = tt
Within-weaken takes n out_of_fuel h = absurd h

-- What follows factors, a restriction and an argument.
pub Within-bind_factors {κ} :
    {B : Type κ} (takes : B → Bool) (n n' : ℕ) (r : Result Factors) (f : Factors → Parser B)
    → Within has_factor n r
    → ((l : Lexer) → left l ≤ n → Within takes n' (f no_factors l))
    → ((fs : Factors) (l : Lexer) → left l < n → Within takes n' (f (nil_factor fs) l))
    → ((g : Factor) (fs : Factors) (l : Lexer) → left l < n → Within takes n' (f (a_factor g fs) l))
    → Within takes n' (bind r f)
unfolding Within
Within-bind_factors takes n n' (ok no_factors l) f h on_none on_nil on_factor = on_none l h.0
Within-bind_factors takes n n' (ok (nil_factor fs) l) f h on_none on_nil on_factor =
    on_nil fs l (h.1 refl)
Within-bind_factors takes n n' (ok (a_factor g fs) l) f h on_none on_nil on_factor =
    on_factor g fs l (h.1 refl)
Within-bind_factors takes n n' (err e) f h on_none on_nil on_factor = tt
Within-bind_factors takes n n' out_of_fuel f h on_none on_nil on_factor = absurd h

pub Within-bind_restriction {κ} :
    {B : Type κ} (takes : B → Bool) (n n' : ℕ) (r : Result RestrictionPtr)
    (f : RestrictionPtr → Parser B)
    → Within is_restriction n r
    → ((l : Lexer) → left l ≤ n → Within takes n' (f nil_restriction l))
    → ((c : Option Comparable) (o : Bytes) (a : ArgPtr) (l : Lexer)
        → left l < n
        → Within takes n' (f (restriction c o a) l))
    → Within takes n' (bind r f)
unfolding Within
Within-bind_restriction takes n n' (ok nil_restriction l) f h on_nil on_restriction = on_nil l h.0
Within-bind_restriction takes n n' (ok (restriction c o a) l) f h on_nil on_restriction =
    on_restriction c o a l (h.1 refl)
Within-bind_restriction takes n n' (err e) f h on_nil on_restriction = tt
Within-bind_restriction takes n n' out_of_fuel f h on_nil on_restriction = absurd h

pub Within-bind_arg {κ} :
    {B : Type κ} (takes : B → Bool) (n n' : ℕ) (r : Result ArgPtr) (f : ArgPtr → Parser B)
    → Within no_matter n r
    → ((l : Lexer) → left l ≤ n → Within takes n' (f nil_arg l))
    → ((c : Option Comparable) (e : ExpressionPtr) (l : Lexer)
        → left l ≤ n
        → Within takes n' (f (arg c e) l))
    → Within takes n' (bind r f)
unfolding Within
Within-bind_arg takes n n' (ok nil_arg l) f h on_nil on_arg = on_nil l h.0
Within-bind_arg takes n n' (ok (arg c e) l) f h on_nil on_arg = on_arg c e l h.0
Within-bind_arg takes n n' (err e) f h on_nil on_arg = tt
Within-bind_arg takes n n' out_of_fuel f h on_nil on_arg = absurd h

pub Within-bind_either {ℓ κ} :
    {A : Type ℓ} {B : Type κ} (takes : B → Bool) (n n' : ℕ) (r : Result (Option A))
    (f : Option A → Parser B)
    → Within no_matter n r
    → ((l : Lexer) → left l ≤ n → Within takes n' (f none l))
    → ((a : A) (l : Lexer) → left l ≤ n → Within takes n' (f (some a) l))
    → Within takes n' (bind r f)
unfolding Within
Within-bind_either takes n n' (ok none l) f h on_none on_some = on_none l h.0
Within-bind_either takes n n' (ok (some a) l) f h on_none on_some = on_some a l h.0
Within-bind_either takes n n' (err e) f h on_none on_some = tt
Within-bind_either takes n n' out_of_fuel f h on_none on_some = absurd h
