-- ===== src/Bsi/Value.antt =====
-- The number that the slices of an index hold at a column, and what reading and writing make of it.
use native.Mathlib.Nat.{pow-suc, pow-le-pow_right, mod-eq_of_lt}
use bitstar.Base.{
  ℕ, suc, ◌+◌, ◌%◌, ◌^◌, ◌≤◌, ◌<◌, ◌≡◌, ◌≢◌, refl, ◌∙◌, Bool, true, false, List, [], ◌∷◌, arith,
  length, set_bit, weight, mod-pow-suc, set_bit_of_lt, Bool-cases, inl, inr,
}
use bitstar.Roaring.{Roaring}
use bitstar.Bsi.Defs.{write_bits, write_many, read_bits}

pub pow-le : (i j : ℕ) → i ≤ j → 2 ^ i ≤ 2 ^ j
pow-le i j h = pow-le-pow_right (omega arith) h

module _ (R : Roaring) where
  open R use {Bitmap}

  -- The weights of the slices that hold the column, the first slice being that of bit `i`.
  unfoldable pub slices_value : ℕ → ℕ → List Bitmap → ℕ
  slices_value c i [] = 0
  slices_value c i (s ∷ ss) = weight (R.contains s c) i + slices_value c (suc i) ss

  -- No slice holds the column.
  abbrev pub Unset : ℕ → List Bitmap → Type 0
  Unset c [] = Unit
  Unset c (s ∷ ss) = (R.contains s c ≡ false) × Unset c ss

  slices_value-le :
      (c i j : ℕ) (ss : List Bitmap) → i + length ss ≡ j → slices_value c i ss + 2 ^ i ≤ 2 ^ j
  unfolding slices_value
  slices_value-le c i j [] e = let e' : i ≡ j = omega arith in rw e' (omega arith)
  slices_value-le c i j (s ∷ ss) e =
      ground (arith, slices_value-le c (suc i) j ss (omega arith), pow-suc 2 i)

  pub read_bits_lem :
      (c i j : ℕ) (ss : List Bitmap) (value : ℕ)
      → i + length ss ≡ j
      → j ≤ 64
      → value < 2 ^ i
      → read_bits R c i ss value ≡ value + slices_value c i ss
  unfolding slices_value read_bits
  read_bits_lem c i j [] value e h lt = omega arith
  read_bits_lem c i j (s ∷ ss) value e h lt = elim (Bool-cases (R.contains s c)) [
    | inl here ↦ rw here (
        let below : 2 ^ suc i ≤ 2 ^ 64 = pow-le (suc i) 64 (omega arith) in
        let fits : value + 2 ^ i < 2 ^ suc i = omega (arith, pow-suc 2 i) in
        let set_here : set_bit value i ≡ value + 2 ^ i =
          set_bit_of_lt value i lt ∙ mod-eq_of_lt (omega arith) in
        rw set_here
          (omega (arith, read_bits_lem c (suc i) j ss (value + 2 ^ i) (omega arith) h fits)))
    | inr absent ↦ rw absent (
        omega (
          arith,
          read_bits_lem c (suc i) j ss value (omega arith) h (omega (arith, pow-suc 2 i)),
          pow-suc 2 i,
        ))
  ]

  -- Writing a value puts its low bits into the slices at the column.
  pub slices_value-write_bits_self :
      (exists : Bool) (value c i j : ℕ) (ss : List Bitmap)
      → i + length ss ≡ j
      → (exists ≡ false → Unset c ss)
      → slices_value c i (write_bits R exists value c i ss) + value % 2 ^ i ≡ value % 2 ^ j
  unfolding slices_value write_bits
  slices_value-write_bits_self exists value c i j [] e unset =
      let e' : i ≡ j = omega arith in rw e' (omega arith)
  slices_value-write_bits_self exists value c i j (s ∷ ss) e unset =
      let rest =
        slices_value-write_bits_self exists value c (suc i) j ss (omega arith) (λ h. (unset h).1) in
      ground
        (arith, rest, mod-pow-suc value i, R.contains-add s c c, R.contains-remove s c c, unset)

  -- ... and leaves every other column alone.
  pub slices_value-write_bits_ne :
      (exists : Bool) (value c d i : ℕ) (ss : List Bitmap)
      → c ≢ d
      → slices_value d i (write_bits R exists value c i ss) ≡ slices_value d i ss
  unfolding slices_value write_bits
  slices_value-write_bits_ne exists value c d i [] ne = refl
  slices_value-write_bits_ne exists value c d i (s ∷ ss) ne = ground (
    arith,
    slices_value-write_bits_ne exists value c d (suc i) ss ne,
    R.contains-add s c d,
    R.contains-remove s c d,
  )

  -- `SetMany` writes the value at the columns of the set and leaves the others alone.
  pub slices_value-write_many :
      (found_set : Bitmap) (value c i j : ℕ) (ss : List Bitmap)
      → i + length ss ≡ j
      → R.contains found_set c ≡ true
      → slices_value c i (write_many R found_set value i ss) + value % 2 ^ i ≡ value % 2 ^ j
  unfolding slices_value write_many
  slices_value-write_many found_set value c i j [] e found =
      let e' : i ≡ j = omega arith in rw e' (omega arith)
  slices_value-write_many found_set value c i j (s ∷ ss) e found =
      let rest = slices_value-write_many found_set value c (suc i) j ss (omega arith) found in
      ground (
        arith,
        rest,
        mod-pow-suc value i,
        R.contains-or s found_set c,
        R.contains-and_not s found_set c,
      )

  pub slices_value-write_many_absent :
      (found_set : Bitmap) (value c i : ℕ) (ss : List Bitmap)
      → R.contains found_set c ≡ false
      → slices_value c i (write_many R found_set value i ss) ≡ slices_value c i ss
  unfolding slices_value write_many
  slices_value-write_many_absent found_set value c i [] absent = refl
  slices_value-write_many_absent found_set value c i (s ∷ ss) absent =
      let rest = slices_value-write_many_absent found_set value c (suc i) ss absent in
      ground (arith, rest, R.contains-or s found_set c, R.contains-and_not s found_set c)

  pub length-write_bits :
      (exists : Bool) (value c i : ℕ) (ss : List Bitmap)
      → length (write_bits R exists value c i ss) ≡ length ss
  unfolding write_bits
  length-write_bits exists value c i [] = refl
  length-write_bits exists value c i (s ∷ ss) =
      omega (arith, length-write_bits exists value c (suc i) ss)

  pub length-write_many :
      (found_set : Bitmap) (value i : ℕ) (ss : List Bitmap)
      → length (write_many R found_set value i ss) ≡ length ss
  unfolding write_many
  length-write_many found_set value i [] = refl
  length-write_many found_set value i (s ∷ ss) =
      omega (arith, length-write_many found_set value (suc i) ss)

  pub Unset-write_bits :
      (exists : Bool) (value c d i : ℕ) (ss : List Bitmap)
      → c ≢ d
      → Unset d ss
      → Unset d (write_bits R exists value c i ss)
  unfolding write_bits
  Unset-write_bits exists value c d i [] ne u = tt
  Unset-write_bits exists value c d i (s ∷ ss) ne u = (
    ground (arith, R.contains-add s c d, R.contains-remove s c d),
    Unset-write_bits exists value c d (suc i) ss ne u.1,
  )

  pub Unset-write_many :
      (found_set : Bitmap) (value c i : ℕ) (ss : List Bitmap)
      → R.contains found_set c ≡ false
      → Unset c ss
      → Unset c (write_many R found_set value i ss)
  unfolding write_many
  Unset-write_many found_set value c i [] absent u = tt
  Unset-write_many found_set value c i (s ∷ ss) absent u = (
    ground (arith, R.contains-or s found_set c, R.contains-and_not s found_set c),
    Unset-write_many found_set value c (suc i) ss absent u.1,
  )
