-- ===== src/Bsi/Compare/Low.antt =====
-- The number that the slices below a bit hold at a column.
use native.Mathlib.Nat.{pow-suc, add-zero}
use bitstar.Base.{
  ℕ, zero, suc, ◌+◌, ◌^◌, ◌≤◌, ◌<◌, ◌≡◌, refl, ap, ◌∙◌, List, [], ◌∷◌, arith, length, weight,
}
use bitstar.Roaring.{Roaring}
use bitstar.Bsi.Value.{slices_value}
use bitstar.Bsi.Compare.Defs.{slice_contains}

module _ (R : Roaring) where
  open R use {Bitmap}

  -- The weights of the first `n` slices, the first being that of bit `i`.
  low_from : ℕ → ℕ → ℕ → List Bitmap → ℕ
  low_from c i zero ss = 0
  low_from c i (suc n) ss = low_from c i n ss + weight (slice_contains R ss c n) (i + n)

  low_from-nil : (c i n : ℕ) → low_from c i n [] ≡ 0
  unfolding low_from
  low_from-nil c i zero = refl
  low_from-nil c i (suc n) = omega (arith, low_from-nil c i n)

  low_from-cons :
      (c i n : ℕ) (s : Bitmap) (ss : List Bitmap)
      → low_from c i (suc n) (s ∷ ss) ≡ weight (R.contains s c) i + low_from c (suc i) n ss
  unfolding low_from
  low_from-cons c i zero s ss = ground (arith, ap (λ t. 2 ^ t) (add-zero i))
  low_from-cons c i (suc n) s ss =
      ground (arith, low_from-cons c i n s ss, ap (λ t. 2 ^ t) (shift i n))
    where
      shift : (i n : ℕ) → i + suc n ≡ suc i + n
      shift i n = omega arith

  low_from_all :
      (c i n : ℕ) (ss : List Bitmap) → length ss ≤ n → low_from c i n ss ≡ slices_value R c i ss
  unfolding slices_value
  low_from_all c i n [] h = low_from-nil c i n
  low_from_all c i zero (s ∷ ss) h = absurd (omega arith)
  low_from_all c i (suc n) (s ∷ ss) h =
      low_from-cons c i n s ss
      ∙ ap (λ t. weight (R.contains s c) i + t) (low_from_all c (suc i) n ss (omega arith))

  -- The number that the slices below bit `n` hold at the column.
  unfoldable pub low : ℕ → ℕ → List Bitmap → ℕ
  low c zero ss = 0
  low c (suc n) ss = low c n ss + weight (slice_contains R ss c n) n

  low-eq-low_from : (c n : ℕ) (ss : List Bitmap) → low c n ss ≡ low_from c 0 n ss
  unfolding low low_from
  low-eq-low_from c zero ss = refl
  low-eq-low_from c (suc n) ss =
      ground (arith, low-eq-low_from c n ss, ap (λ t. 2 ^ t) (zero_plus n))
    where
      zero_plus : (n : ℕ) → 0 + n ≡ n
      zero_plus n = omega arith

  -- Below a bit that no slice reaches stands the whole value.
  pub low_all : (c n : ℕ) (ss : List Bitmap) → length ss ≤ n → low c n ss ≡ slices_value R c 0 ss
  low_all c n ss h = low-eq-low_from c n ss ∙ low_from_all c 0 n ss h

  pub low-lt : (c n : ℕ) (ss : List Bitmap) → low c n ss < 2 ^ n
  unfolding low
  low-lt c zero ss = omega arith
  low-lt c (suc n) ss = ground (arith, low-lt c n ss, pow-suc 2 n)
