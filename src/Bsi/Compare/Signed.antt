-- ===== src/Bsi/Compare/Signed.antt =====
-- `compareValue` decides the order of `int64`.
use mathlib.Core.Bool.{false≢true}
use bitstar.Base.{
  ℕ, ◌+◌, ◌%◌, ◌^◌, ◌≤◌, ◌<◌, ◌≡◌, ◌≢◌, refl, ◌∙◌, Bool, true, false, differ, arith, if◌then◌else◌,
  length, weight, negate, compare, some, signed_rank, leb, ltb, ◌==◌, ◌↔◌, is_negative,
}
use bitstar.Roaring.{Roaring}
use bitstar.Bsi.Defs.{Bsi}
use bitstar.Bsi.Value.{slices_value}
use bitstar.Bsi.Compare.Defs.{Operation, compare_column, decision}
use bitstar.Bsi.Compare.Column.{judged, compare_column-Compared}

module _ (l m k : ℕ) (hl : l < 2 ^ 63) (hm : m < 2 ^ 63) where
  judged-le :
      (n s : Bool)
      → judged Operation.le n s (compare l (if differ n s then k else m))
        ≡ some (leb (signed_rank (l + weight n 63)) (signed_rank (m + weight s 63)))
  unfolding decision
  judged-le true true = ground arith
  judged-le true false = ground arith
  judged-le false true = ground arith
  judged-le false false = ground arith

  judged-ge :
      (n s : Bool)
      → judged Operation.ge n s (compare l (if differ n s then k else m))
        ≡ some (leb (signed_rank (m + weight s 63)) (signed_rank (l + weight n 63)))
  unfolding decision
  judged-ge true true = ground arith
  judged-ge true false = ground arith
  judged-ge false true = ground arith
  judged-ge false false = ground arith

  -- Strict comparisons and equality go by the low parts alone, so they are right unless the signs
  -- differ and the low parts agree.
  judged-lt :
      (n s : Bool)
      → (differ n s ≡ true → l ≢ k)
      → judged Operation.lt n s (compare l (if differ n s then k else m))
        ≡ some (ltb (signed_rank (l + weight n 63)) (signed_rank (m + weight s 63)))
  unfolding decision
  judged-lt true true h = ground arith
  judged-lt true false h = ground (arith, h refl)
  judged-lt false true h = ground (arith, h refl)
  judged-lt false false h = ground arith

  judged-gt :
      (n s : Bool)
      → (differ n s ≡ true → l ≢ k)
      → judged Operation.gt n s (compare l (if differ n s then k else m))
        ≡ some (ltb (signed_rank (m + weight s 63)) (signed_rank (l + weight n 63)))
  unfolding decision
  judged-gt true true h = ground arith
  judged-gt true false h = ground (arith, h refl)
  judged-gt false true h = ground (arith, h refl)
  judged-gt false false h = ground arith

  judged-eq :
      (n s : Bool)
      → (differ n s ≡ true → l ≢ k)
      → judged Operation.eq n s (compare l (if differ n s then k else m))
        ≡ some ((l + weight n 63) == (m + weight s 63))
  unfolding decision
  judged-eq true true h = ground arith
  judged-eq true false h = ground (arith, h refl)
  judged-eq false true h = ground (arith, h refl)
  judged-eq false false h = ground arith

  judged_mirrored :
      (n s : Bool)
      → differ n s ≡ true
      → l ≡ k
      → (judged Operation.eq n s (compare l (if differ n s then k else m)) ≡ some true)
        × (judged Operation.lt n s (compare l (if differ n s then k else m)) ≡ some false)
        × (judged Operation.gt n s (compare l (if differ n s then k else m)) ≡ some false)
  unfolding decision
  judged_mirrored true true h e = absurd (false≢true h)
  judged_mirrored true false h e = ground arith
  judged_mirrored false true h e = ground arith
  judged_mirrored false false h e = absurd (false≢true h)

-- The value has the opposite sign of the bound and the same distance from 0, or they are 0 and the
-- least `int64`.
abbrev pub Mirrored : ℕ → ℕ → Type 0
Mirrored held value =
    (differ (is_negative held) (is_negative value) ≡ true) × ((held + value) % 2 ^ 63 ≡ 0)

module _ (R : Roaring) (b : Bsi R.Bitmap) (narrow : length b.b_a ≤ 64) (value end_value c : ℕ)
    (small : value < 2 ^ 64) where
  abbrev held : ℕ
  held = slices_value R c 0 b.b_a

  -- `LE` accepts a column exactly when its value is at most the bound, as an `int64`.
  pub compare_column-le :
      compare_column R b Operation.le value end_value c
      ≡ some (leb (signed_rank held) (signed_rank value))
  compare_column-le =
      let t = compare_column-Compared R b narrow Operation.le refl value end_value c small in
      t.outcome
      ∙ judged-le t.l t.m (negate value % 2 ^ 63) t.l_small t.m_small t.is_negative
          t.start_is_negative
      ∙ rw (← t.held_is, ← t.value_is)

  -- `GE` accepts a column exactly when its value is at least the bound, as an `int64`.
  pub compare_column-ge :
      compare_column R b Operation.ge value end_value c
      ≡ some (leb (signed_rank value) (signed_rank held))
  compare_column-ge =
      let t = compare_column-Compared R b narrow Operation.ge refl value end_value c small in
      t.outcome
      ∙ judged-ge t.l t.m (negate value % 2 ^ 63) t.l_small t.m_small t.is_negative
          t.start_is_negative
      ∙ rw (← t.held_is, ← t.value_is)

  -- Equal low parts of two values of different sign mean that they are mirrored.
  Mirrored-iff :
      (n s : Bool) (l m : ℕ)
      → l < 2 ^ 63
      → m < 2 ^ 63
      → held ≡ l + weight n 63
      → value ≡ m + weight s 63
      → Mirrored held value ↔ (differ n s ≡ true) × (l ≡ negate value % 2 ^ 63)
  unfolding negate
  Mirrored-iff true true l m hl hm e f = ground arith
  Mirrored-iff true false l m hl hm e f = ground arith
  Mirrored-iff false true l m hl hm e f = ground arith
  Mirrored-iff false false l m hl hm e f = ground arith

  differs :
      (n s : Bool) (l m : ℕ)
      → l < 2 ^ 63
      → m < 2 ^ 63
      → held ≡ l + weight n 63
      → value ≡ m + weight s 63
      → ¬ Mirrored held value
      → differ n s ≡ true
      → l ≢ negate value % 2 ^ 63
  differs n s l m hl hm e f different d low_eq =
      different ((Mirrored-iff n s l m hl hm e f).1 (d, low_eq))

  -- On an index of at most 64 slices and for a bound of 64 bits, `LT`, `GT` and `EQ` decide the order
  -- and the equality of `int64` at a column whose value does not mirror the bound: the two do not
  -- have different signs and a sum that is 0 in the low 63 bits.
  pub compare_column_strict :
      ¬ Mirrored held value
      → (compare_column R b Operation.lt value end_value c
          ≡ some (ltb (signed_rank held) (signed_rank value)))
        × (compare_column R b Operation.gt value end_value c
            ≡ some (ltb (signed_rank value) (signed_rank held)))
        × (compare_column R b Operation.eq value end_value c ≡ some (held == value))
  compare_column_strict different = (
    let t = compare_column-Compared R b narrow Operation.lt refl value end_value c small in
        t.outcome
        ∙ judged-lt t.l t.m (negate value % 2 ^ 63) t.l_small t.m_small t.is_negative
            t.start_is_negative
            (differs t.is_negative t.start_is_negative t.l t.m t.l_small t.m_small t.held_is
              t.value_is different)
        ∙ rw (← t.held_is, ← t.value_is),
    let t = compare_column-Compared R b narrow Operation.gt refl value end_value c small in
        t.outcome
        ∙ judged-gt t.l t.m (negate value % 2 ^ 63) t.l_small t.m_small t.is_negative
            t.start_is_negative
            (differs t.is_negative t.start_is_negative t.l t.m t.l_small t.m_small t.held_is
              t.value_is different)
        ∙ rw (← t.held_is, ← t.value_is),
    let t = compare_column-Compared R b narrow Operation.eq refl value end_value c small in
        t.outcome
        ∙ judged-eq t.l t.m (negate value % 2 ^ 63) t.l_small t.m_small t.is_negative
            t.start_is_negative
            (differs t.is_negative t.start_is_negative t.l t.m t.l_small t.m_small t.held_is
              t.value_is different)
        ∙ rw (← t.held_is, ← t.value_is),
  )

  -- On an index of at most 64 slices and for a bound of 64 bits, `EQ` accepts a column whose value
  -- mirrors the bound, and `LT` and `GT` refuse it, although the two differ: they have different
  -- signs and a sum that is 0 in the low 63 bits.
  pub compare_column-Mirrored :
      Mirrored held value
      → (compare_column R b Operation.eq value end_value c ≡ some true)
        × (compare_column R b Operation.lt value end_value c ≡ some false)
        × (compare_column R b Operation.gt value end_value c ≡ some false)
        × (held ≢ value)
  compare_column-Mirrored mirrored = (
    let t = compare_column-Compared R b narrow Operation.eq refl value end_value c small in
        let (d, low_eq) =
          (Mirrored-iff t.is_negative t.start_is_negative t.l t.m t.l_small t.m_small t.held_is
              t.value_is).0
            mirrored in
        t.outcome
        ∙ (judged_mirrored t.l t.m (negate value % 2 ^ 63) t.l_small t.m_small t.is_negative
            t.start_is_negative d low_eq).0,
    let t = compare_column-Compared R b narrow Operation.lt refl value end_value c small in
        let (d, low_eq) =
          (Mirrored-iff t.is_negative t.start_is_negative t.l t.m t.l_small t.m_small t.held_is
              t.value_is).0
            mirrored in
        t.outcome
        ∙ (judged_mirrored t.l t.m (negate value % 2 ^ 63) t.l_small t.m_small t.is_negative
            t.start_is_negative d low_eq).1,
    let t = compare_column-Compared R b narrow Operation.gt refl value end_value c small in
        let (d, low_eq) =
          (Mirrored-iff t.is_negative t.start_is_negative t.l t.m t.l_small t.m_small t.held_is
              t.value_is).0
            mirrored in
        t.outcome
        ∙ (judged_mirrored t.l t.m (negate value % 2 ^ 63) t.l_small t.m_small t.is_negative
            t.start_is_negative d low_eq).2,
    λ same_value. ground (arith, mirrored.0),
  )
