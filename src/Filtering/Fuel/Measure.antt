-- ===== src/Filtering/Fuel/Measure.antt =====
-- What a parsing method leaves of the input, in tokens at most.
use bitstar.Base.{
  ℕ, ◌+◌, ◌<◌, ◌≤◌, ◌≡◌, refl, ap, Bool, true, false, Option, none, some, if◌then◌else◌, length,
  arith, Bool-cases, Option-cases, inl, inr,
}
use bitstar.Filtering.Lexer.{Kind, Token, Lexer, trim_left, lex, next_token, peek_token}
use bitstar.Filtering.Result.{ParseError, Result, ok, err, out_of_fuel, Parser, bind}
use bitstar.Filtering.Atoms.{same_kind, expect, accept}
use bitstar.Filtering.Fuel.Progress.{width, lex-width, length-trim_left}

-- The bytes left, and one for a token that was peeked at.
unfoldable pub left : Lexer → ℕ
unfolding width
left l = length l.input + elim l.next [ none ↦ 0 | some t ↦ width t ]

-- The result leaves at most `n`, and less than `n` when it is of a kind that takes a token.
unfoldable pub Within {ℓ} : {A : Type ℓ} → (A → Bool) → ℕ → Result A → Type 0
unfolding left
Within takes n (ok a l) = (left l ≤ n) × (takes a ≡ true → left l < n)
Within takes n (err e) = Unit
Within takes n out_of_fuel = ⊥

abbrev pub is_some {ℓ} : {A : Type ℓ} → Option A → Bool
is_some none = false
is_some (some a) = true

abbrev pub no_matter {ℓ} : {A : Type ℓ} → A → Bool
no_matter a = false

pub Within-ok {ℓ} :
    {A : Type ℓ} (takes : A → Bool) (n : ℕ) (a : A) (l : Lexer)
    → left l ≤ n
    → (takes a ≡ true → left l < n)
    → Within takes n (ok a l)
unfolding Within
Within-ok takes n a l h k = (h, k)

pub Within-err {ℓ} :
    {A : Type ℓ} (takes : A → Bool) (n : ℕ) (e : ParseError) → Within takes n (err e)
unfolding Within
Within-err takes n e = tt

-- What follows a result.
pub Within-none {ℓ} :
    (A : Type ℓ) (n : ℕ) (l : Lexer) → left l ≤ n → Within (is_some {A = A}) n (ok none l)
Within-none A n l h = Within-ok is_some n none l h (λ e. absurd (cc e))

pub Within-some {ℓ} :
    {A : Type ℓ} (n : ℕ) (a : A) (l : Lexer) → left l < n → Within is_some n (ok (some a) l)
Within-some n a l h = Within-ok is_some n (some a) l (omega (arith, h)) (λ e. h)

pub Within-any {ℓ} :
    {A : Type ℓ} (n : ℕ) (a : A) (l : Lexer) → left l ≤ n → Within no_matter n (ok a l)
Within-any n a l h = Within-ok no_matter n a l h (λ e. absurd (cc e))

-- What follows a pointer, and what follows any other result.
pub Within-bind_option {ℓ κ} :
    {A : Type ℓ} {B : Type κ} (takes : B → Bool) (n n' : ℕ) (r : Result (Option A))
    (f : Option A → Parser B)
    → Within is_some n r
    → ((l : Lexer) → left l ≤ n → Within takes n' (f none l))
    → ((a : A) (l : Lexer) → left l < n → Within takes n' (f (some a) l))
    → Within takes n' (bind r f)
unfolding Within
Within-bind_option takes n n' (ok none l) f h on_none on_some = on_none l h.0
Within-bind_option takes n n' (ok (some a) l) f h on_none on_some = on_some a l (h.1 refl)
Within-bind_option takes n n' (err e) f h on_none on_some = tt
Within-bind_option takes n n' out_of_fuel f h on_none on_some = absurd h

pub Within-bind {ℓ κ} :
    {A : Type ℓ} {B : Type κ} (takes : B → Bool) (n n' : ℕ) (r : Result A) (f : A → Parser B)
    → Within no_matter n r
    → ((a : A) (l : Lexer) → left l ≤ n → Within takes n' (f a l))
    → Within takes n' (bind r f)
unfolding Within
Within-bind takes n n' (ok a l) f h next = next a l h.0
Within-bind takes n n' (err e) f h next = tt
Within-bind takes n n' out_of_fuel f h next = absurd h

peek_token-left :
    (l : Lexer) (t : Token) (l' : Lexer)
    → peek_token l ≡ some (t, l')
    → (left l' ≤ left l)
      × (next_token l' ≡ some (t, record l' { next = none }))
      × (left l' ≡ length l'.input + width t)
unfolding peek_token next_token left
peek_token-left l t l' h = elim (Option-cases l.next) [
  | inr (t', e) ↦
      let same : t' ≡ t = ground arith in
      let same' : l ≡ l' = ground arith in
      (
        rw (← same') (omega arith),
        rw (← same', e) (ap (λ x. some (x, record l { next = none })) same),
        rw (← same', e) (ground (arith, same)),
      )
  | inl e ↦ elim (Option-cases (lex (trim_left l.input))) [
    | inl fails ↦ absurd (ground arith)
    | inr ((t', rest), reads) ↦
        let same : t' ≡ t = ground arith in
        let same' : record { input = rest; next = some t' } ≡ l' = ground arith in
        let shorter = lex-width (trim_left l.input) t' rest reads in
        let trimmed = length-trim_left l.input in
        (
          rw (← same', e) (omega (arith, shorter, trimmed)),
          rw (← same', ← same) refl,
          rw (← same', ← same) refl,
        )
  ]
]

width-other : (t : Token) → same_kind t.kind Kind.end ≡ false → width t ≡ 1
unfolding width
width-other t h = ground arith

end_same : (kind : Kind) → same_kind Kind.end kind ≡ same_kind kind Kind.end
unfolding same_kind
end_same Kind.comparator = refl
end_same Kind.negate = refl
end_same Kind.and = refl
end_same Kind.or = refl
end_same Kind.dot = refl
end_same Kind.lparen = refl
end_same Kind.rparen = refl
end_same Kind.comma = refl
end_same Kind.string = refl
end_same Kind.text = refl
end_same Kind.end = refl

-- The kind of a token that is accepted.
not_end :
    (kind k : Kind)
    → same_kind kind Kind.end ≡ false
    → same_kind k kind ≡ true
    → same_kind k Kind.end ≡ false
unfolding same_kind
not_end kind Kind.comparator h e = refl
not_end kind Kind.negate h e = refl
not_end kind Kind.and h e = refl
not_end kind Kind.or h e = refl
not_end kind Kind.dot h e = refl
not_end kind Kind.lparen h e = refl
not_end kind Kind.rparen h e = refl
not_end kind Kind.comma h e = refl
not_end kind Kind.string h e = refl
not_end kind Kind.text h e = refl
not_end kind Kind.end h e = absurd (ground (arith, end_same kind))

accept-fails :
    (kind : Kind) (l : Lexer) → peek_token l ≡ none → accept kind l ≡ err ParseError.unable_to_lex
unfolding accept
accept-fails kind l h = ground (arith, h)

accept-takes :
    (kind : Kind) (l l' l2 : Lexer) (t t' : Token)
    → peek_token l ≡ some (t, l')
    → next_token l' ≡ some (t', l2)
    → same_kind t.kind kind ≡ true
    → accept kind l ≡ ok (some t') l2
unfolding accept
accept-takes kind l l' l2 t t' h k same = ground (arith, h, k, same)

accept-leaves :
    (kind : Kind) (l l' : Lexer) (t : Token)
    → peek_token l ≡ some (t, l')
    → same_kind t.kind kind ≡ false
    → accept kind l ≡ ok none l'
unfolding accept
accept-leaves kind l l' t h other = ground (arith, h, other)

-- `accept`: it takes a token or leaves the input, and a token other than the end is shorter input.
pub accept-Within :
    (kind : Kind) (l : Lexer)
    → same_kind kind Kind.end ≡ false
    → Within is_some (left l) (accept kind l)
unfolding left
accept-Within kind l other = elim (Option-cases (peek_token l)) [
  | inl fails ↦
      rw (accept-fails kind l fails) (Within-err is_some (left l) ParseError.unable_to_lex)
  | inr ((t, l'), peeks) ↦
      let (fewer, reads, size) = peek_token-left l t l' peeks in
      elim (Bool-cases (same_kind t.kind kind)) [
        | inl same ↦
            let one = width-other t (not_end kind t.kind other same) in
            let after : Lexer = record l' { next = none } in
            rw (accept-takes kind l l' after t t peeks reads same)
              (Within-some (left l) t after (omega (arith, fewer, size, one)))
        | inr different ↦
            rw (accept-leaves kind l l' t peeks different) (Within-none Token (left l) l' fewer)
      ]
]

-- The same of any kind, the end too.
pub accept-leaves_no_more : (kind : Kind) (l : Lexer) → Within no_matter (left l) (accept kind l)
unfolding left
accept-leaves_no_more kind l = elim (Option-cases (peek_token l)) [
  | inl fails ↦
      rw (accept-fails kind l fails) (Within-err no_matter (left l) ParseError.unable_to_lex)
  | inr ((t, l'), peeks) ↦
      let (fewer, reads, size) = peek_token-left l t l' peeks in
      elim (Bool-cases (same_kind t.kind kind)) [
        | inl same ↦
            let after : Lexer = record l' { next = none } in
            rw (accept-takes kind l l' after t t peeks reads same)
              (Within-any (left l) (some t) after (omega (arith, fewer, size)))
        | inr different ↦
            rw (accept-leaves kind l l' t peeks different) (Within-any (left l) none l' fewer)
      ]
]

expect-eq :
    (kind : Kind) (l l' : Lexer) (t : Token)
    → peek_token l ≡ some (t, l')
    → next_token l' ≡ some (t, record l' { next = none })
    → expect kind l ≡ (
        if same_kind t.kind kind
        then ok tt (record l' { next = none })
        else err (ParseError.expected kind t.kind))
unfolding expect
expect-eq kind l l' t h k = ground (arith, h, k)

pub expect-Within : (kind : Kind) (l : Lexer) → Within no_matter (left l) (expect kind l)
unfolding left
expect-Within kind l = elim (Option-cases (peek_token l)) [
  | inl fails ↦ unfold expect in (rw fails (Within-err no_matter (left l) ParseError.unable_to_lex))
  | inr ((t, l'), peeks) ↦
      let (fewer, reads, size) = peek_token-left l t l' peeks in
      rw (expect-eq kind l l' t peeks reads) (elim (Bool-cases (same_kind t.kind kind)) [
        | inl same ↦
            rw same
              (Within-any (left l) tt (record l' { next = none }) (omega (arith, fewer, size)))
        | inr different ↦
            rw different (Within-err no_matter (left l) (ParseError.expected kind t.kind))
      ])
]
