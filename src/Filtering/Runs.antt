-- ===== src/Filtering/Runs.antt =====
-- Runs of the lexer and of the parser on concrete filters.
use bitstar.Base.{◌≡◌, refl, ◌-◌, Option, some, drop, take, length, codes, Bytes}
use bitstar.Filtering.Lexer.{Kind, lex}

-- A stand-in for `strconv.Unquote` that takes the quotes off.
abbrev pub strip : Bytes → Option Bytes
strip s = some (take (length s - 2) (drop 1 s))

lex_not : lex (codes "NOT a") ≡ some (record { kind = Kind.negate; value = codes "NOT" }, codes "a")
unfolding lex
lex_not = refl

lex_string :
    lex (codes "\"a b\" = c")
    ≡ some (record { kind = Kind.string; value = codes "\"a b\"" }, codes " = c")
unfolding lex
lex_string = refl
