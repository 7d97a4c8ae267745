-- ===== src/Bsi/Compare/Column.antt =====
-- One column against one bound, in the order of `int64`.
use native.Mathlib.Nat.{mod-eq_of_lt}
use bitstar.Base.{
  ℕ, ◌+◌, ◌-◌, ◌%◌, ◌^◌, ◌≤◌, ◌<◌, ◌≡◌, refl, ap, sym, ◌∙◌, Bool, true, false, differ, arith,
  if◌then◌else◌, length, weight, bit, mod-pow-suc, negate, compare, Ordering, Option, dec_lt, len64,
  lt-len64, len64-le, ◌==◌,
}
use bitstar.Roaring.{Roaring}
use bitstar.Bsi.Defs.{Bsi}
use bitstar.Bsi.Value.{slices_value, pow-le}
use bitstar.Bsi.Compare.Defs.{
  Operation, Bounds, scan, start_scan, slice_contains, is_range, decision, scan_width,
  column_bounds, compare_column,
}
use bitstar.Bsi.Compare.Low.{low, low-lt, low_all}
use bitstar.Bsi.Compare.Scan.{verdict, scan-verdict}

-- The bounds of an index with fewer than 64 slices: no sign is looked at.
abbrev unsigned : Operation → ℕ → ℕ → Bounds
unsigned op value end_value = record {
  op = op;
  comp_start_value = value;
  comp_end_value = end_value;
  start_is_negative = false;
  end_is_negative = false;
  is_negative = false;
}

-- The decision after a comparison, as the signs and the order of the low parts give it.
abbrev pub judged : Operation → Bool → Bool → Ordering → Option Bool
unfolding decision
judged op is_negative start_is_negative o =
    let t : Bounds = record {
      op = op;
      comp_start_value = 0;
      comp_end_value = 0;
      start_is_negative = start_is_negative;
      end_is_negative = false;
      is_negative = is_negative;
    } in
    decision t (verdict t o)

decision_flags :
    (t : Bounds) (o : Ordering)
    → decision t (verdict t o) ≡ judged t.op t.is_negative t.start_is_negative o
unfolding decision
decision_flags t Ordering.lt = refl
decision_flags t Ordering.eq = refl
decision_flags t Ordering.gt = refl

module _ (R : Roaring) (b : Bsi R.Bitmap) (narrow : length b.b_a ≤ 64) (op : Operation)
    (one_bound : is_range op ≡ false) (value end_value c : ℕ) (small : value < 2 ^ 64) where
  abbrev width : ℕ
  width = scan_width R b op value end_value

  width_lem : (len64 value ≤ width) × (length b.b_a ≤ width) × (width ≤ 64)
  unfolding scan_width
  width_lem = ground (arith, len64-le value)

  value-lt : value < 2 ^ width
  value-lt =
      let more = pow-le (len64 value) width width_lem.0 in omega (arith, lt-len64 value small)

  abbrev held : ℕ
  held = slices_value R c 0 b.b_a

  held-eq : low R c width b.b_a ≡ held
  held-eq = low_all R c width b.b_a width_lem.1

  held-lt : held < 2 ^ width
  held-lt = rw held-eq at (low-lt R c width b.b_a)

  -- Below 64 bits the column's value and the bound are compared as they are.
  compare_column_narrow :
      width < 64
      → compare_column R b op value end_value c
        ≡ decision
            (unsigned op value end_value)
            (verdict (unsigned op value end_value) (compare held value))
  unfolding compare_column
  compare_column_narrow h = let below : (width == 64) ≡ false = ground arith in step below
    where
      t : Bounds
      t = unsigned op value end_value

      bounds_lem : (width == 64) ≡ false → column_bounds R b op value end_value width c ≡ t
      bounds_lem e = unfold column_bounds in rw e

      step :
          (width == 64) ≡ false
          → compare_column R b op value end_value c ≡ decision t (verdict t (compare held value))
      step e =
          ap
            (λ u.
              decision u (scan R u b.b_a c (if width == 64 then width - 1 else width) start_scan))
            (bounds_lem e)
          ∙ ap
              (λ (x : Bool).
                decision t (scan R t b.b_a c (if x then width - 1 else width) start_scan))
              e
          ∙ ap (decision t) (scan-verdict R t one_bound b.b_a c width)
          ∙ ap (λ v. decision t (verdict t v)) (rw (held-eq, mod-eq_of_lt value-lt))

  compare_column_wide :
      width ≡ 64
      → let t = column_bounds R b op value end_value 64 c in
        compare_column R b op value end_value c
        ≡ decision t (verdict t (compare (low R c 63 b.b_a) (t.comp_start_value % 2 ^ 63)))
  unfolding compare_column
  compare_column_wide h =
      let t = column_bounds R b op value end_value 64 c in
      ap
        (λ x.
          let u = column_bounds R b op value end_value x c in
          decision u (scan R u b.b_a c (if x == 64 then x - 1 else x) start_scan))
        h
      ∙ ap (decision t) (scan-verdict R t one_bound b.b_a c 63)

  -- The two parts of the column's value and of the bound at 64 bits.
  held_parts : width ≡ 64 → held ≡ low R c 63 b.b_a + weight (slice_contains R b.b_a c 63) 63
  held_parts h =
      let short : length b.b_a ≤ 64 = narrow in
      sym (low_all R c 64 b.b_a short) ∙ (unfold low in refl)

  value_parts : value ≡ value % 2 ^ 63 + weight (bit value 63) 63
  value_parts = sym (mod-eq_of_lt small) ∙ mod-pow-suc value 63

  -- The bound that the loop compares with, at 64 bits.
  abbrev wide_bound : ℕ
  wide_bound = if differ (slice_contains R b.b_a c 63) (bit value 63) then negate value else value

  -- The comparison comes down to signs and low parts: `l` and `m` are the values without their sign
  -- bits, and `k` is `m`, or the low part of the negated bound where the signs differ.
  pub record Compared : Type 0 where
    pub is_negative : Bool
    pub start_is_negative : Bool
    pub l : ℕ
    pub m : ℕ
    pub held_is : held ≡ l + weight is_negative 63
    pub value_is : value ≡ m + weight start_is_negative 63
    pub l_small : l < 2 ^ 63
    pub m_small : m < 2 ^ 63
    pub outcome :
        compare_column R b op value end_value c
        ≡ judged op is_negative start_is_negative
            (compare l (if differ is_negative start_is_negative then negate value % 2 ^ 63 else m))

  pub compare_column-Compared : Compared
  compare_column-Compared = elim (dec_lt width 64) [
    | yes h ↦
        let below : 2 ^ width ≤ 2 ^ 63 = pow-le width 63 (omega arith) in
        record {
          is_negative = false;
          start_is_negative = false;
          l = held;
          m = value;
          held_is = omega arith;
          value_is = omega arith;
          l_small = omega (arith, held-lt);
          m_small = omega (arith, value-lt);
          outcome =
              compare_column_narrow h
              ∙ decision_flags (unsigned op value end_value) (compare held value);
        }
    | no h ↦
        let full : width ≡ 64 = omega (arith, width_lem) in
        record {
          is_negative = slice_contains R b.b_a c 63;
          start_is_negative = bit value 63;
          l = low R c 63 b.b_a;
          m = value % 2 ^ 63;
          held_is = held_parts full;
          value_is = value_parts;
          l_small = low-lt R c 63 b.b_a;
          m_small = omega arith;
          outcome =
              compare_column_wide full
              ∙ unfold column_bounds in
                (decision_flags (column_bounds R b op value end_value 64 c)
                  (compare (low R c 63 b.b_a) (wide_bound % 2 ^ 63)))
                ∙ ap
                    (λ v.
                      judged op (slice_contains R b.b_a c 63) (bit value 63)
                        (compare (low R c 63 b.b_a) v))
                    (split_bound (differ (slice_contains R b.b_a c 63) (bit value 63)));
        }
  ]
    where
      split_bound :
          (d : Bool)
          → (if d then negate value else value) % 2 ^ 63
            ≡ (if d then negate value % 2 ^ 63 else value % 2 ^ 63)
      split_bound true = refl
      split_bound false = refl
