-- ===== src/Filtering/Fuel/Progress.antt =====
-- `filterLexer.Next` takes at least one byte for every token but the end.
use bitstar.Base.{
  ℕ, zero, suc, ◌+◌, ◌<◌, ◌≤◌, ◌≡◌, Bool, true, false, [], ◌∷◌, none, some, if◌then◌else◌, length,
  length-drop, take, drop, Bytes, arith, Option-cases, inl, inr,
}
use bitstar.Filtering.Lexer.{
  Kind, Token, trim_left, string_length, Group, match_comparator, match_mark, match_word,
  match_string_or_text, match_at, find_match, taken, lex,
}
use bitstar.Filtering.Atoms.{same_kind}

-- The end takes nothing, every other token at least one byte.
unfoldable pub width : Token → ℕ
unfolding same_kind
width t = if same_kind t.kind Kind.end then 0 else 1

string_length-pos : (s : Bytes) (n : ℕ) → string_length s ≡ some n → 0 < n
unfolding string_length
string_length-pos [] n h = absurd (ground arith)
string_length-pos (c ∷ []) n h = ground arith
string_length-pos (c ∷ d ∷ cs) n h = elim (Option-cases (string_length cs)) [
  | inl e1 ↦ elim (Option-cases (string_length (d ∷ cs))) [
    | inl e2 ↦ ground arith
    | inr (k, e2) ↦ ground arith
  ]
  | inr (j, e1) ↦ elim (Option-cases (string_length (d ∷ cs))) [
    | inl e2 ↦ ground arith
    | inr (k, e2) ↦ ground arith
  ]
]

match_comparator-pos : (s : Bytes) (n : ℕ) → match_comparator s ≡ some n → 0 < n
unfolding match_comparator
match_comparator-pos [] n h = absurd (ground arith)
match_comparator-pos (c ∷ []) n h = ground arith
match_comparator-pos (c ∷ d ∷ cs) n h = ground arith

match_word-pos : (s : Bytes) (g : Group) (n : ℕ) → match_word s ≡ some (g, n) → 0 < n
unfolding match_word
match_word-pos [] g n h = absurd (ground arith)
match_word-pos (a ∷ []) g n h = absurd (ground arith)
match_word-pos (a ∷ b ∷ []) g n h = ground arith
match_word-pos (a ∷ b ∷ c ∷ []) g n h = ground arith
match_word-pos (a ∷ b ∷ c ∷ d ∷ cs) g n h = ground arith

match_string_or_text-pos :
    (s : Bytes) (g : Group) (n : ℕ) → match_string_or_text s ≡ some (g, n) → 0 < n
unfolding match_string_or_text
match_string_or_text-pos [] g n h = absurd (ground arith)
match_string_or_text-pos (c ∷ cs) g n h = elim (Option-cases (string_length cs)) [
  | inl e ↦ ground arith
  | inr (k, e) ↦ ground arith
]

match_at-pos :
    (at_start : Bool) (s : Bytes) (g : Group) (n : ℕ) → match_at at_start s ≡ some (g, n) → 0 < n
unfolding match_at
match_at-pos at_start [] g n h = absurd (ground arith)
match_at-pos at_start (c ∷ cs) g n h =
    elim (Option-cases (if at_start then match_comparator (c ∷ cs) else none)) [
      | inr (k, e) ↦ let pos = match_comparator-pos (c ∷ cs) k in ground arith
      | inl e ↦ elim (Option-cases (match_word (c ∷ cs))) [
        | inr ((g', k), e2) ↦ let pos = match_word-pos (c ∷ cs) g' k e2 in ground arith
        | inl e2 ↦ elim (Option-cases (match_mark c)) [
          | inr (g', e3) ↦ ground arith
          | inl e3 ↦ match_string_or_text-pos (c ∷ cs) g n (ground arith)
        ]
      ]
    ]

length-take_pos : (n : ℕ) (c : ℕ) (cs : Bytes) → 0 < n → 0 < length (take n (c ∷ cs))
length-take_pos zero c cs h = absurd (omega arith)
length-take_pos (suc n) c cs h = omega arith

find_match-pos :
    (at_start : Bool) (s : Bytes) (g : Group) (m : Bytes)
    → find_match at_start s ≡ some (g, m)
    → 0 < length m
unfolding find_match
find_match-pos at_start [] g m h = absurd (ground arith)
find_match-pos at_start (c ∷ cs) g m h = elim (Option-cases (match_at at_start (c ∷ cs))) [
  | inl e ↦ find_match-pos false cs g m (ground arith)
  | inr ((g', n), e) ↦
      let long = length-take_pos n c cs (match_at-pos at_start (c ∷ cs) g' n e) in
      let same : take n (c ∷ cs) ≡ m = ground arith in rw (← same) long
]

taken-pos : (g : Group) (m : Bytes) → 0 < length m → 0 < taken g m
unfolding taken
taken-pos g m h = ground arith

-- A call on trimmed input.
pub lex-width :
    (s : Bytes) (t : Token) (rest : Bytes)
    → lex s ≡ some (t, rest)
    → width t + length rest ≤ length s
unfolding lex width same_kind
lex-width [] t rest h =
    let same : [] ≡ rest = ground arith in
    let end : record { kind = Kind.end; value = [] } ≡ t = ground arith in
    rw (← same, ← end) (ground arith)
lex-width (c ∷ cs) t rest h = elim (Option-cases (find_match true (c ∷ cs))) [
  | inl e ↦ absurd (ground arith)
  | inr ((g, m), e) ↦
      let pos = taken-pos g m (find_match-pos true (c ∷ cs) g m e) in
      let same : drop (taken g m) (c ∷ cs) ≡ rest = ground arith in
      let fewer = length-drop (taken g m) (c ∷ cs) in rw (← same) (ground arith)
]

pub length-trim_left : (s : Bytes) → length (trim_left s) ≤ length s
unfolding trim_left
length-trim_left [] = ground arith
length-trim_left (c ∷ cs) = ground (arith, length-trim_left cs)
