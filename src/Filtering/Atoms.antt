-- ===== src/Filtering/Atoms.antt =====
-- filtering/filtering.go: the parsing methods below `restriction`. `unquote` is `strconv.Unquote`. A pointer that the
-- methods return is an option.
use bitstar.Base.{
  ℕ, zero, suc, Bool, true, false, List, [], ◌∷◌, Option, none, some, if◌then◌else◌, Bytes,
}
use bitstar.Filtering.Syntax.{Value, Member, Comparable}
use bitstar.Filtering.Lexer.{Kind, Token, Lexer, next_token, peek_token}
use bitstar.Filtering.Result.{
  ParseError, Result, ok, err, out_of_fuel, Parser, pure, fail, bind, ◌>>=◌,
}

-- `a == b` on kinds.
unfoldable pub same_kind : Kind → Kind → Bool
same_kind Kind.comparator Kind.comparator = true
same_kind Kind.negate Kind.negate = true
same_kind Kind.and Kind.and = true
same_kind Kind.or Kind.or = true
same_kind Kind.dot Kind.dot = true
same_kind Kind.lparen Kind.lparen = true
same_kind Kind.rparen Kind.rparen = true
same_kind Kind.comma Kind.comma = true
same_kind Kind.string Kind.string = true
same_kind Kind.text Kind.text = true
same_kind Kind.end Kind.end = true
same_kind _ _ = false

-- A call of the lexer, whose error ends the parse.
abbrev lexed : Option (Token × Lexer) → Result Token
lexed none = err ParseError.unable_to_lex
lexed (some (t, l)) = ok t l

-- `expect`.
unfoldable pub expect : Kind → Parser (Unit {0})
unfolding same_kind peek_token next_token
expect kind l = bind (lexed (peek_token l)) λ t l'.
    if same_kind t.kind kind
    then bind (lexed (next_token l')) (λ _. pure tt)
    else err (ParseError.expected kind t.kind)

-- `accept`.
unfoldable pub accept : Kind → Parser (Option Token)
unfolding same_kind peek_token next_token
accept kind l = bind (lexed (peek_token l)) λ t l'.
    if same_kind t.kind kind
    then bind (lexed (next_token l')) (λ t'. pure (some t'))
    else ok none l'

module _ (unquote : Bytes → Option Bytes) where
  -- `value`.
  unfoldable pub value : Parser (Option Value)
  unfolding accept
  value = do
    quoted ← accept Kind.string
    elim quoted [
      | some v ↦ elim (unquote v.value) [
        | none ↦ fail ParseError.unquoting
        | some text ↦ pure (some (record { quoted = true; value = text }))
      ]
      | none ↦ do
        plain ← accept Kind.text
        elim plain [
          | none ↦ pure none
          | some v ↦ pure (some (record { quoted = false; value = v.value }))
        ]
    ]

  -- The loop of `member` over the fields.
  unfoldable pub member_fields : ℕ → Parser (List Value)
  unfolding value
  member_fields zero l = out_of_fuel
  member_fields (suc f) l = bind (accept Kind.dot l) λ dot. elim dot [
    | none ↦ pure []
    | some _ ↦ do
      v ← value
      elim v [
        | none ↦ fail ParseError.expected_value_after_dot
        | some field ↦ do rest ← member_fields f; pure (field ∷ rest)
      ]
  ]

  -- `member`.
  unfoldable pub member : ℕ → Parser (Option Member)
  unfolding member_fields
  member f = do
    v ← value
    elim v [
      | none ↦ pure none
      | some first ↦ do
        fields ← member_fields f
        pure (some (record { value = some first; fields = fields }))
    ]

  -- `comparable`.
  unfoldable pub comparable : ℕ → Parser (Option Comparable)
  unfolding member
  comparable f = do
    m ← member f
    elim m [ none ↦ pure none | some m' ↦ pure (some (record { member = some m' })) ]
