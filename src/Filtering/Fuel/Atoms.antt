-- ===== src/Filtering/Fuel/Atoms.antt =====
-- The methods below `restriction`: what they return took a token.
use bitstar.Base.{ℕ, zero, suc, ◌<◌, refl, true, false, [], ◌∷◌, Option, none, some, Bytes, arith}
use bitstar.Filtering.Syntax.{Value}
use bitstar.Filtering.Lexer.{Kind, Lexer}
use bitstar.Filtering.Result.{ParseError, Parser, pure, fail}
use bitstar.Filtering.Atoms.{same_kind, accept, value, member_fields, member, comparable}
use bitstar.Filtering.Fuel.Measure.{
  left, Within, is_some, no_matter, Within-none, Within-some, Within-any, Within-err, Within-bind,
  Within-bind_option, accept-Within,
}

module _ (unquote : Bytes → Option Bytes) where
  value-Within : (l : Lexer) → Within is_some (left l) (value unquote l)
  unfolding value same_kind
  value-Within l =
      Within-bind_option is_some (left l) (left l) (accept Kind.string l) _
        (accept-Within Kind.string l refl)
        (λ l1 h.
          Within-bind_option is_some (left l1) (left l) (accept Kind.text l1) _
            (accept-Within Kind.text l1 refl)
            (λ l2 h'. Within-none _ (left l) l2 (omega (arith, h, h')))
            (λ v l2 h'.
              Within-some (left l) (record { quoted = false; value = v.value }) l2
                (omega (arith, h, h'))))
        (λ v l1 h.
          elim (unquote v.value)
            as (λ text. Within is_some (left l) (
              (elim text as (λ _. Parser (Option Value)) [
                | none ↦ fail ParseError.unquoting
                | some text' ↦ pure (some (record { quoted = true; value = text' }))
              ])
                l1)) [
                  | none ↦ Within-err is_some (left l) ParseError.unquoting
                  | some text ↦ Within-some (left l) (record { quoted = true; value = text }) l1 h
                ])

  member_fields-Within :
      (f : ℕ) (l : Lexer) → left l < f → Within no_matter (left l) (member_fields unquote f l)
  unfolding member_fields same_kind
  member_fields-Within zero l enough = absurd (omega arith)
  member_fields-Within (suc f) l enough =
      Within-bind_option no_matter (left l) (left l) (accept Kind.dot l) _
        (accept-Within Kind.dot l refl) (λ l1 h. Within-any (left l) [] l1 h)
        (λ dot l1 h.
          Within-bind_option no_matter (left l1) (left l) (value unquote l1) _ (value-Within l1)
            (λ l2 h'. Within-err no_matter (left l) ParseError.expected_value_after_dot)
            (λ field l2 h'.
              Within-bind no_matter (left l2) (left l) (member_fields unquote f l2) _
                (member_fields-Within f l2 (omega (arith, enough, h, h')))
                (λ rest l3 h2. Within-any (left l) (field ∷ rest) l3 (omega (arith, h, h', h2)))))

  member-Within : (f : ℕ) (l : Lexer) → left l < f → Within is_some (left l) (member unquote f l)
  unfolding member
  member-Within f l enough =
      Within-bind_option is_some (left l) (left l) (value unquote l) _ (value-Within l)
        (λ l1 h. Within-none _ (left l) l1 h)
        (λ first l1 h.
          Within-bind is_some (left l1) (left l) (member_fields unquote f l1) _
            (member_fields-Within f l1 (omega (arith, enough, h)))
            (λ fields l2 h'.
              Within-some (left l) (record { value = some first; fields = fields }) l2
                (omega (arith, h, h'))))

  pub comparable-Within :
      (f : ℕ) (l : Lexer) → left l < f → Within is_some (left l) (comparable unquote f l)
  unfolding comparable
  comparable-Within f l enough =
      Within-bind_option is_some (left l) (left l) (member unquote f l) _ (member-Within f l enough)
        (λ l1 h. Within-none _ (left l) l1 h)
        (λ m l1 h. Within-some (left l) (record { member = some m }) l1 h)
