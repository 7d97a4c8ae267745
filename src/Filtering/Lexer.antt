-- ===== src/Filtering/Lexer.antt =====
-- filtering/filtering.go: the lexer. The input is a list of bytes; every class of the regular
-- expression is told by ASCII bytes, so it matches bytes as it matches characters.
use bitstar.Base.{
  ℕ, suc, ◌+◌, ◌-◌, Bool, true, false, not, ◌&&◌, ◌||◌, [], ◌∷◌, Option, none, some, ◌==◌,
  if◌then◌else◌, length, take, drop, Bytes,
}

pub data Kind : Type 0 where
  comparator negate and or dot lparen rparen comma string text end : Kind

pub record Token : Type 0 where
  pub kind : Kind
  pub value : Bytes

-- `filterLexer`.
pub record Lexer : Type 0 where
  pub input : Bytes
  pub next : Option Token

-- `NewLexer`.
unfoldable pub new_lexer : Bytes → Lexer
new_lexer input = record { input = input; next = none }

-- `\s`.
unfoldable is_space : ℕ → Bool
is_space c = c == 9 || c == 10 || c == 12 || c == 13 || c == 32

-- The class of the last alternative, `[^\s\.,<>=!:\(\)]`.
unfoldable is_text : ℕ → Bool
unfolding is_space
is_text c = not (
    is_space c
    || c == b'.'
    || c == b','
    || c == b'<'
    || c == b'>'
    || c == b'='
    || c == b'!'
    || c == b':'
    || c == b'('
    || c == b')')

-- `strings.TrimLeft(l.input, " \t\r\n")`.
unfoldable pub trim_left : Bytes → Bytes
trim_left [] = []
trim_left (c ∷ cs) = if c == 32 || c == 9 || c == 13 || c == 10 then trim_left cs else c ∷ cs

-- The length of the rest of a quoted string, its closing quote included: `(?:[^"\\]|\\.)*"`.
unfoldable pub string_length : Bytes → Option ℕ
string_length [] = none
string_length (c ∷ []) = if c == b'"' then some 1 else none
string_length (c ∷ d ∷ cs) =
    let after_escape = string_length cs in
    let after_one = string_length (d ∷ cs) in
    if c == b'"'
    then some 1
    else if c == 92
    then if d == 10 then none else elim after_escape [ none ↦ none | some n ↦ some (n + 2) ]
    else elim after_one [ none ↦ none | some n ↦ some (n + 1) ]

-- The number of bytes of text that the input starts with.
unfoldable text_length : Bytes → ℕ
unfolding is_text
text_length [] = 0
text_length (c ∷ cs) = let rest = text_length cs in if is_text c then suc rest else 0

-- The groups of the regular expression, in its order.
pub data Group : Type 0 where
  comparator not_word minus and_word or_word dot lparen rparen comma string text : Group

-- The first group that matches at a place, with the length of the whole match. Only the comparators
-- are anchored to the start of the input.
unfoldable pub match_comparator : Bytes → Option ℕ
match_comparator [] = none
match_comparator (c ∷ []) =
    if c == b'<' || c == b'>' || c == b'=' || c == b':' then some 1 else none
match_comparator (c ∷ d ∷ cs) =
    if (c == b'<' || c == b'>' || c == b'!') && d == b'='
    then some 2
    else if c == b'<' || c == b'>' || c == b'=' || c == b':'
    then some 1
    else none

-- The groups of one character.
unfoldable pub match_mark : ℕ → Option Group
match_mark c =
    if c == b'.'
    then some Group.dot
    else if c == b'('
    then some Group.lparen
    else if c == b')'
    then some Group.rparen
    else if c == b','
    then some Group.comma
    else none

-- The words `NOT`, `AND` and `OR` with a space behind them, and the minus before a non-space.
unfoldable pub match_word : Bytes → Option (Group × ℕ)
unfolding is_space
match_word (a ∷ b ∷ c ∷ d ∷ cs) =
    if a == b'N' && b == b'O' && c == b'T' && is_space d
    then some (Group.not_word, 4)
    else if a == b'-' && not (is_space b)
    then some (Group.minus, 2)
    else if a == b'A' && b == b'N' && c == b'D' && is_space d
    then some (Group.and_word, 4)
    else if a == b'O' && b == b'R' && is_space c
    then some (Group.or_word, 3)
    else none
match_word (a ∷ b ∷ c ∷ []) =
    if a == b'-' && not (is_space b)
    then some (Group.minus, 2)
    else if a == b'O' && b == b'R' && is_space c
    then some (Group.or_word, 3)
    else none
match_word (a ∷ b ∷ []) = if a == b'-' && not (is_space b) then some (Group.minus, 2) else none
match_word _ = none

-- The last two alternatives: a quoted string, or text.
unfoldable pub match_string_or_text : Bytes → Option (Group × ℕ)
unfolding string_length text_length
match_string_or_text [] = none
match_string_or_text (c ∷ cs) =
    let words : Option (Group × ℕ) =
      (if text_length (c ∷ cs) == 0 then none else some (Group.text, text_length (c ∷ cs))) in
    if c == b'"'
    then elim (string_length cs) [ some n ↦ some (Group.string, n + 1) | none ↦ words ]
    else words

-- All alternatives at one place, of which the first one matches.
unfoldable pub match_at : Bool → Bytes → Option (Group × ℕ)
unfolding match_comparator match_word match_mark match_string_or_text
match_at at_start [] = none
match_at at_start (c ∷ cs) = elim (if at_start then match_comparator (c ∷ cs) else none) [
  | some n ↦ some (Group.comparator, n)
  | none ↦ elim (match_word (c ∷ cs)) [
    | some m ↦ some m
    | none ↦ elim (match_mark c) [ some g ↦ some (g, 1) | none ↦ match_string_or_text (c ∷ cs) ]
  ]
]

-- `FindStringSubmatch`: the leftmost match, with the group and the text of the whole match.
unfoldable pub find_match : Bool → Bytes → Option (Group × Bytes)
unfolding match_at
find_match at_start [] = none
find_match at_start (c ∷ cs) =
    let later = find_match false cs in
    elim (match_at at_start (c ∷ cs)) [ some (g, n) ↦ some (g, take n (c ∷ cs)) | none ↦ later ]

-- The token of a match; a word loses the space that it was matched with.
unfoldable group_token : Group → Bytes → Token
group_token Group.comparator m = record { kind = Kind.comparator; value = m }
group_token Group.not_word m = record { kind = Kind.negate; value = take (length m - 1) m }
group_token Group.minus m = record { kind = Kind.negate; value = b'-' ∷ [] }
group_token Group.and_word m = record { kind = Kind.and; value = take (length m - 1) m }
group_token Group.or_word m = record { kind = Kind.or; value = take (length m - 1) m }
group_token Group.dot m = record { kind = Kind.dot; value = m }
group_token Group.lparen m = record { kind = Kind.lparen; value = m }
group_token Group.rparen m = record { kind = Kind.rparen; value = m }
group_token Group.comma m = record { kind = Kind.comma; value = m }
group_token Group.string m = record { kind = Kind.string; value = m }
group_token Group.text m = record { kind = Kind.text; value = m }

-- How much of the input a match takes off: the length of the match, and one byte for a minus.
unfoldable pub taken : Group → Bytes → ℕ
taken Group.minus m = 1
taken _ m = length m

-- The part of `Next` that reads from the trimmed input; `none` is the error of a text that no
-- token matches.
unfoldable pub lex : Bytes → Option (Token × Bytes)
unfolding find_match group_token taken
lex [] = some (record { kind = Kind.end; value = [] }, [])
lex (c ∷ cs) = elim (find_match true (c ∷ cs)) [
  | none ↦ none
  | some (g, m) ↦ some (group_token g m, drop (taken g m) (c ∷ cs))
]

-- `Next`.
unfoldable pub next_token : Lexer → Option (Token × Lexer)
unfolding lex trim_left
next_token l = elim l.next [
  | some t ↦ some (t, record l { next = none })
  | none ↦ elim (lex (trim_left l.input)) [
    | none ↦ none
    | some (t, rest) ↦ some (t, record { input = rest; next = none })
  ]
]

-- `Peek`.
unfoldable pub peek_token : Lexer → Option (Token × Lexer)
unfolding next_token
peek_token l = elim l.next [
  | some t ↦ some (t, l)
  | none ↦ elim (next_token l) [
    | none ↦ none
    | some (t, l') ↦ some (t, record l' { next = some t })
  ]
]
