-- ===== src/Index/Merge/Bsis.antt =====
-- `mergeBSI`: the values of two indexes at the new rows.
use bitstar.Base.{
  ℕ, zero, suc, ◌%◌, ◌^◌, ◌≤◌, ◌<◌, ◌≡◌, ◌∙◌, true, false, List, some, arith, length,
  length-replicate, replicate, ltb, if◌then◌else◌,
}
use native.Mathlib.Nat.{mod-eq_of_lt}
use bitstar.Roaring.{Roaring}
use bitstar.Bsi.Defs.{Bsi, get_value, new_bsi, init_bitmaps}
use bitstar.Bsi.Value.{slices_value, Unset}
use bitstar.Bsi.SetGet.{get_value-eq-held}
use bitstar.Index.Times.{slices_value-get_value}
use bitstar.Index.Merge.Defs.{merge_bsi, max_signed, min_signed}
use bitstar.Index.Merge.Move.{IsOwn, IsFree}
use bitstar.Index.Merge.Maps.{AllShort, move_slices-IsSliceMove}

module _ (R : Roaring) where
  open R use {Bitmap}

  Unset-replicate : (c n : ℕ) → Unset R c (replicate n R.new)
  Unset-replicate c zero = tt
  Unset-replicate c (suc n) = (R.contains-new c, Unset-replicate c n)

  -- The new row of a row reads as the row.
  abbrev pub Reads : Bsi Bitmap → Bsi Bitmap → ℕ → ℕ → Type 0
  Reads b out i r =
      (value : ℕ) → get_value R b i ≡ (value, true) → get_value R out r ≡ (value, true)

  -- The slices hold at one row what they held at the other, and the row exists.
  abbrev Holds : Bsi Bitmap → Bsi Bitmap → ℕ → ℕ → Type 0
  Holds b out i r =
      (slices_value R r 0 out.b_a ≡ slices_value R i 0 b.b_a) × (R.contains out.e_bm r ≡ true)

  moved_column :
      (b out : Bsi Bitmap) (i r : ℕ)
      → i < 2 ^ 32
      → r < 2 ^ 32
      → length b.b_a ≤ 64
      → length out.b_a ≤ 64
      → Holds b out i r
      → Reads b out i r
  moved_column b out i r i_small r_small narrow narrow' h value read =
      let in_range : r % 2 ^ 32 ≡ r = mod-eq_of_lt r_small in
      let old = slices_value-get_value R b i value i_small narrow read in
      let new = get_value-eq-held R out r narrow' in ground (arith, old, new, in_range, h)

  module _ (a b : Bsi Bitmap) (remap_a remap_b : List ℕ) (total : ℕ)
      (short_a : AllShort R (length remap_a) a.b_a) (short_b : AllShort R (length remap_b) b.b_a)
      (narrow_a : length a.b_a ≤ 64) (narrow_b : length b.b_a ≤ 64) (fits : total ≤ 2 ^ 32)
      (fits_a : length remap_a ≤ 2 ^ 32) (fits_b : length remap_b ≤ 2 ^ 32) where
    -- `mergeBSI` of two indexes.
    pub record IsBsiMerge (out : Bsi Bitmap) : Type 0 where
      pub narrow : length out.b_a ≤ 64
      pub reads_a :
          (i r : ℕ)
          → i < 2 ^ 32
          → r < total
          → IsOwn remap_a i r
          → IsFree remap_b r
          → Reads a out i r
      pub reads_b :
          (j r : ℕ)
          → j < 2 ^ 32
          → r < total
          → IsOwn remap_b j r
          → IsFree remap_a r
          → Reads b out j r

    pub merge_bsi-IsBsiMerge :
        (out : Bsi Bitmap) × (merge_bsi R a b remap_a remap_b total ≡ some out) × IsBsiMerge out
    unfolding merge_bsi new_bsi init_bitmaps
    merge_bsi-IsBsiMerge =
        let n = if ltb (length a.b_a) (length b.b_a) then length b.b_a else length a.b_a in
        let start = replicate n R.new in
        let size : length start ≡ n = length-replicate n R.new in
        let (with_a, runs, move_a) =
          move_slices-IsSliceMove R a.b_a start remap_a short_a (ground arith) in
        let (with_b, runs', move_b) =
          move_slices-IsSliceMove R b.b_a with_a remap_b short_b
            (ground (arith, move_a.same_length)) in
        let exists : (r : ℕ)
            → r < total
            → R.contains (if ltb 0 total then R.add_range R.new 0 total else R.new) r ≡ true =
          λ r inside. ground (arith, R.contains-add_range R.new 0 total r) in
        let out : Bsi Bitmap = record {
          b_a = with_b;
          e_bm = if ltb 0 total then R.add_range R.new 0 total else R.new;
          max_value = max_signed R b.max_value a.max_value;
          min_value = min_signed R b.min_value a.min_value;
          run_optimized = false;
        } in
        let narrow : length with_b ≤ 64 = ground (arith, move_a.same_length, move_b.same_length) in
        (
          out,
          ground (arith, runs, runs'),
          record {
            narrow = narrow;
            reads_a = λ i r i_small inside own free.
                moved_column a out i r i_small (omega arith) narrow_a narrow (
                  move_b.free_value r 0 free ∙ move_a.own_value i r 0 own (Unset-replicate r n),
                  exists r inside,
                );
            reads_b = λ j r j_small inside own free.
                moved_column b out j r j_small (omega arith) narrow_b narrow (
                  move_b.own_value j r 0 own (move_a.free_unset r free (Unset-replicate r n)),
                  exists r inside,
                );
          },
        )
