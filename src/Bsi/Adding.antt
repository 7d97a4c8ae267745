-- ===== src/Bsi/Adding.antt =====
-- `Add` and `Increment` add the numbers at every column, with carries, and never panic.
use bitstar.Base.{
  ℕ, zero, suc, ◌+◌, ◌≤◌, ◌<◌, ◌≡◌, refl, ◌∙◌, Bool, true, false, differ, ◌&&◌, ◌||◌, List, [], ◌∷◌,
  ◌++◌, Option, some, arith, if◌then◌else◌, length, get_elem?, get_elem?-lt, set, weight,
  length-append, length-set, Bool-cases, inl, inr, dec_lt,
}
use native.Mathlib.Nat.{pow-suc}
use native.Mathlib.Numerals.{add-one}
use bitstar.Roaring.{Roaring}
use bitstar.Bsi.Defs.{Bsi}
use bitstar.Bsi.Value.{slices_value}
use bitstar.Bsi.Grow.{slices_value-append_new}
use bitstar.Bsi.Ops.{add_digit, digit_fuel, add_digits, add, increment}

-- Two bits at one place: their sum without carry, and the carry.
half_add :
    (a b : Bool) (i : ℕ) → weight a i + weight b i ≡ weight (differ a b) i + weight (a && b) (suc i)
half_add true true i = omega (arith, pow-suc 2 i)
half_add true false i = omega arith
half_add false true i = omega arith
half_add false false i = omega arith

module _ (R : Roaring) where
  open R use {Bitmap}

  slices_value-set :
      (c k i j : ℕ) (ss : List Bitmap) (s s' : Bitmap)
      → get_elem? ss i ≡ some s
      → j ≡ k + i
      → slices_value R c k (set ss i s') + weight (R.contains s c) j
        ≡ slices_value R c k ss + weight (R.contains s' c) j
  unfolding slices_value
  slices_value-set c k i j [] s s' e h = absurd (ground arith)
  slices_value-set c k zero j (x ∷ ss) s s' e h =
      let same_slice : x ≡ s = cc in
      let at_k : j ≡ k = omega arith in rw (same_slice, at_k) (omega arith)
  slices_value-set c k (suc i) j (x ∷ ss) s s' e h =
      omega (arith, slices_value-set c (suc k) i j ss s s' e (omega arith))

  -- `r` holds at every column what `slices` holds, and the set's bit `i` on top.
  pub record IsAdded (slices : List Bitmap) (found_set : Bitmap) (i : ℕ)
      (outcome : Option (List Bitmap)) : Type 0 where
    pub r : List Bitmap
    pub returns : outcome ≡ some r
    pub sum :
        (c : ℕ)
        → slices_value R c 0 r ≡ slices_value R c 0 slices + weight (R.contains found_set c) i
    pub reaches : i < length r
    pub no_shorter : length slices ≤ length r

  get_elem?-append_new : (ss : List Bitmap) → get_elem? (ss ++ R.new ∷ []) (length ss) ≡ some R.new
  get_elem?-append_new [] = refl
  get_elem?-append_new (s ∷ ss) = get_elem?-append_new ss

  -- One call that finds its slice: the half adder at bit `i`.
  half_added :
      (slices : List Bitmap) (found_set s : Bitmap) (i : ℕ)
      → get_elem? slices i ≡ some s
      → (c : ℕ)
      → slices_value R c 0 (set slices i (R.xor s found_set))
          + weight (R.contains (R.and s found_set) c) (suc i)
        ≡ slices_value R c 0 slices + weight (R.contains found_set c) i
  half_added slices found_set s i e c =
      let put = slices_value-set c 0 i i slices s (R.xor s found_set) e (omega arith) in
      let halves = half_add (R.contains s c) (R.contains found_set c) i in
      rw (R.contains-and s found_set c) (omega (arith, rw (R.contains-xor s found_set c) at put))

  get_elem?-in_range :
      (ss : List Bitmap) (i : ℕ) {s : Bitmap} → get_elem? ss i ≡ some s → i < length ss
  get_elem?-in_range [] i e = absurd (ground arith)
  get_elem?-in_range (x ∷ ss) zero e = omega arith
  get_elem?-in_range (x ∷ ss) (suc i) e = omega (arith, get_elem?-in_range ss i e)

  -- A call whose slice is there and whose carry is empty ends at once.
  ends_here :
      (fuel : ℕ) (slices : List Bitmap) (found_set s : Bitmap) (i : ℕ)
      → get_elem? slices i ≡ some s
      → R.is_empty (R.and s found_set) ≡ true
      → IsAdded slices found_set i (add_digit R (suc fuel) slices found_set i)
  unfolding add_digit
  ends_here fuel slices found_set s i e empty =
      let in_range = get_elem?-in_range slices i e in
      let len = length-set slices i (R.xor s found_set) in
      record {
        r = set slices i (R.xor s found_set);
        returns = ground (arith, in_range, e, empty);
        sum = λ c.
            let halves = half_added slices found_set s i e c in
            let no_carry = R.contains_of_empty (R.and s found_set) c empty in
            ground (arith, halves, no_carry);
        reaches = omega (arith, len, in_range);
        no_shorter = omega (arith, len);
      }

  -- A carry into an empty slice ends there.
  blank :
      (fuel : ℕ) (slices : List Bitmap) (found_set s : Bitmap) (i : ℕ)
      → get_elem? slices i ≡ some s
      → ((c : ℕ) → R.contains s c ≡ false)
      → IsAdded slices found_set i (add_digit R (suc fuel) slices found_set i)
  blank fuel slices found_set s i e unset = ends_here fuel slices found_set s i e (
      R.empty_of_contains (R.and s found_set)
        (λ c. ground (arith, R.contains-and s found_set c, unset c)))

  -- The rest of a call after its half adder: what the carry leaves.
  carried :
      (slices next : List Bitmap) (found_set s : Bitmap) (i : ℕ) {outcome : Option (List Bitmap)}
      → get_elem? slices i ≡ some s
      → ((c : ℕ) → slices_value R c 0 next ≡ slices_value R c 0 (set slices i (R.xor s found_set)))
      → length slices ≤ length next
      → IsAdded next (R.and s found_set) (suc i) outcome
      → IsAdded slices found_set i outcome
  carried slices next found_set s i e same_value longer rest = record {
    r = rest.r;
    returns = rest.returns;
    sum = λ c. omega (arith, rest.sum c, same_value c, half_added slices found_set s i e c);
    reaches = omega (arith, rest.reaches);
    no_shorter = omega (arith, rest.no_shorter);
  }

  module _ (fuel : ℕ) (slices : List Bitmap) (found_set s : Bitmap) (i : ℕ)
      (at_i : get_elem? slices i ≡ some s) (in_range : i < length slices)
      (more : R.is_empty (R.and s found_set) ≡ false) where
    carry_inside :
        suc i < length slices
        → add_digit R (suc fuel) slices found_set i
          ≡ add_digit R fuel (set slices i (R.xor s found_set)) (R.and s found_set) (suc i)
    unfolding add_digit
    carry_inside inside = ground (arith, length-set slices i (R.xor s found_set), add-one i)

    carry_beyond :
        ¬ (suc i < length slices)
        → add_digit R (suc fuel) slices found_set i
          ≡ add_digit R fuel
              (set slices i (R.xor s found_set) ++ R.new ∷ [])
              (R.and s found_set)
              (suc i)
    unfolding add_digit
    carry_beyond last = ground (arith, length-set slices i (R.xor s found_set), add-one i)

  present :
      (fuel : ℕ) (slices : List Bitmap) (found_set : Bitmap) (i : ℕ)
      → i < length slices
      → length slices ≤ fuel + i
      → IsAdded slices found_set i (add_digit R (suc fuel) slices found_set i)
  present zero slices found_set i h enough = absurd (omega arith)
  present (suc fuel) slices found_set i h enough =
      elim (Bool-cases (R.is_empty (R.and s found_set))) [
        | inl empty ↦ ends_here (suc fuel) slices found_set s i at_i empty
        | inr more ↦ elim (dec_lt (suc i) (length slices)) [
          | yes inside ↦
              carried slices put found_set s i at_i (λ c. refl) (omega (arith, len))
                (rw (carry_inside (suc fuel) slices found_set s i at_i h more inside) (
                  present fuel put (R.and s found_set) (suc i) (omega (arith, len))
                    (omega (arith, len))))
          | no last ↦
              carried slices (put ++ R.new ∷ []) found_set s i at_i
                (λ c. slices_value-append_new R c 0 put) (omega (arith, len, grown))
                (rw (carry_beyond (suc fuel) slices found_set s i at_i h more last) (
                  blank fuel (put ++ R.new ∷ []) (R.and s found_set) R.new (suc i)
                    (let top : length put ≡ suc i = omega (arith, len) in
                      rw top at (get_elem?-append_new put))
                    R.contains-new))
        ]
      ]
    where
      found : (s : Bitmap) × (get_elem? slices i ≡ some s)
      found = get_elem?-lt slices i h

      s : Bitmap
      s = found.0

      at_i : get_elem? slices i ≡ some s
      at_i = found.1

      put : List Bitmap
      put = set slices i (R.xor s found_set)

      len : length put ≡ length slices
      len = length-set slices i (R.xor s found_set)

      grown : length (put ++ R.new ∷ []) ≡ length put + 1
      grown = length-append put (R.new ∷ [])

  -- `addDigit` at a bit that is no slice beyond the last returns, with this fuel: the set's bit is
  -- added, with its carries.
  add_digit-IsAdded :
      (slices : List Bitmap) (found_set : Bitmap) (i : ℕ)
      → i ≤ length slices
      → IsAdded slices found_set i (add_digit R (digit_fuel slices) slices found_set i)
  add_digit-IsAdded slices found_set i h =
      let fuel_is : digit_fuel slices ≡ suc (length slices + 1) = omega arith in
      rw fuel_is (elim (dec_lt i (length slices)) [
        | yes inside ↦ present (length slices + 1) slices found_set i inside (omega arith)
        | no beyond ↦
            let top : length slices ≡ i = omega arith in
            let rest =
              blank (length slices + 1) (slices ++ R.new ∷ []) found_set R.new i
                (rw top at (get_elem?-append_new slices)) R.contains-new in
            let longer = length-append slices (R.new ∷ []) in
            record {
              r = rest.r;
              returns = appends (length slices + 1) top ∙ rest.returns;
              sum = λ c. omega (arith, rest.sum c, slices_value-append_new R c 0 slices);
              reaches = rest.reaches;
              no_shorter = omega (arith, rest.no_shorter, longer);
            }
      ])
    where
      appends :
          (fuel : ℕ)
          → length slices ≡ i
          → add_digit R (suc fuel) slices found_set i
            ≡ add_digit R (suc fuel) (slices ++ R.new ∷ []) found_set i
      appends fuel top = unfold add_digit in ground (arith, length-append slices (R.new ∷ []))

  add_digits_lem :
      (ds slices : List Bitmap) (i : ℕ)
      → i ≤ length slices
      → (r : List Bitmap) × (add_digits R slices ds i ≡ some r)
        × ((c : ℕ) → slices_value R c 0 r ≡ slices_value R c 0 slices + slices_value R c i ds)
  unfolding add_digits slices_value
  add_digits_lem [] slices i h = (slices, refl, λ c. omega arith)
  add_digits_lem (d ∷ ds) slices i h =
      let one = add_digit-IsAdded slices d i h in
      let (r, returns, sum) = add_digits_lem ds one.r (suc i) (omega (arith, one.reaches)) in
      (r, ground (arith, one.returns, returns), λ c. omega (arith, one.sum c, sum c))

  -- `Add` returns, and every column then holds the sum of what the two indexes held, carries beyond
  -- the last slice included; a column exists if it existed in either.
  pub add_lem :
      (b other : Bsi Bitmap)
      → (r : Bsi Bitmap) × (add R b other ≡ some r)
        × ((c : ℕ)
            → slices_value R c 0 r.b_a ≡ slices_value R c 0 b.b_a + slices_value R c 0 other.b_a)
        × ((c : ℕ) → R.contains r.e_bm c ≡ (R.contains b.e_bm c || R.contains other.e_bm c))
  unfolding add
  add_lem b other =
      let (slices, returns, sum) = add_digits_lem other.b_a b.b_a 0 (omega arith) in
      (
        record b { e_bm = R.or b.e_bm other.e_bm; b_a = slices },
        ground (arith, returns),
        sum,
        λ c. R.contains-or b.e_bm other.e_bm c,
      )

  -- `Increment` returns, adds one at the columns of the set and leaves the values of the others.
  increment_lem :
      (b : Bsi Bitmap) (found_set : Bitmap)
      → (r : Bsi Bitmap) × (increment R b (some found_set) ≡ some r)
        × ((c : ℕ)
            → slices_value R c 0 r.b_a
              ≡ slices_value R c 0 b.b_a + (if R.contains found_set c then 1 else 0))
  unfolding increment
  increment_lem b found_set =
      let one = add_digit-IsAdded b.b_a found_set 0 (omega arith) in
      (
        record b { b_a = one.r; e_bm = R.or b.e_bm found_set },
        ground (arith, one.returns),
        λ c. one.sum c,
      )
