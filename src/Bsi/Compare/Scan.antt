-- ===== src/Bsi/Compare/Scan.antt =====
-- The loop over the bits compares the numbers that the bits stand for.
use native.Mathlib.Nat.{mod-lt}
use bitstar.Base.{
  ℕ, zero, suc, ◌+◌, ◌%◌, ◌^◌, ◌<◌, ◌≡◌, refl, ap, sym, ◌∙◌, Bool, true, false, not, same, ◌&&◌,
  ◌||◌, List, arith, if◌then◌else◌, weight, bit, mod-pow-suc, compare, Ordering, pow_pos,
}
use bitstar.Roaring.{Roaring}
use bitstar.Bsi.Compare.Defs.{
  Bounds, Scan, scan, start_scan, slice_contains, is_range, is_below, is_above,
}
use bitstar.Bsi.Compare.Low.{low, low-lt}

-- The variables after the loop, for a comparison with one bound, when the column's low part is
-- below, equal to or above the bound's.
abbrev pub verdict : Bounds → Ordering → Scan
verdict t Ordering.eq = start_scan
verdict t Ordering.lt = record {
  eq1 = false;
  eq2 = true;
  lt1 = is_below t.op && (not t.start_is_negative || same t.start_is_negative t.is_negative);
  lt2 = false;
  gt1 = is_above t.op && (t.start_is_negative && not t.is_negative);
}
verdict t Ordering.gt = record {
  eq1 = false;
  eq2 = true;
  lt1 = is_below t.op && (t.is_negative && not t.start_is_negative);
  lt2 = false;
  gt1 = is_above t.op && (t.start_is_negative || same t.start_is_negative t.is_negative);
}

-- The top bits decide the comparison unless they agree.
abbrev top_first : Bool → Bool → Ordering → Ordering
top_first true true o = o
top_first true false o = Ordering.gt
top_first false true o = Ordering.lt
top_first false false o = o

compare-top :
    (here there : Bool) (n a v : ℕ)
    → a < 2 ^ n
    → v < 2 ^ n
    → compare (a + weight here n) (v + weight there n) ≡ top_first here there (compare a v)
compare-top true true n a v ha hv = ground arith
compare-top true false n a v ha hv = ground arith
compare-top false true n a v ha hv = ground arith
compare-top false false n a v ha hv = ground arith

module _ (R : Roaring) (t : Bounds) (one_bound : is_range t.op ≡ false) where
  open R use {Bitmap}

  -- One round from the start leaves the verdict of the top bits, or the start.
  scan-suc :
      (slices : List Bitmap) (c n : ℕ)
      → scan R t slices c (suc n) start_scan ≡ (
          if bit t.comp_start_value n
          then if slice_contains R slices c n
            then scan R t slices c n start_scan
            else verdict t Ordering.lt
          else if slice_contains R slices c n
          then verdict t Ordering.gt
          else scan R t slices c n start_scan)
  unfolding scan
  scan-suc slices c n = ground arith

  pub scan-verdict :
      (slices : List Bitmap) (c n : ℕ)
      → scan R t slices c n start_scan
        ≡ verdict t (compare (low R c n slices) (t.comp_start_value % 2 ^ n))
  scan-verdict slices c zero =
      let no_bits : t.comp_start_value % 2 ^ 0 ≡ 0 = omega arith in
      rw no_bits (unfold scan low in refl)
  scan-verdict slices c (suc n) =
      scan-suc slices c n
      ∙ decide (slice_contains R slices c n) (bit t.comp_start_value n) _ (scan-verdict slices c n)
      ∙ ap (verdict t) (sym whole)
    where
      decide :
          (here there : Bool) (o : Ordering) {r : Scan}
          → r ≡ verdict t o
          → (if there
              then if here then r else verdict t Ordering.lt
              else if here
              then verdict t Ordering.gt
              else r)
            ≡ verdict t (top_first here there o)
      decide true true o h = h
      decide true false o h = refl
      decide false true o h = refl
      decide false false o h = h

      whole :
          compare (low R c (suc n) slices) (t.comp_start_value % 2 ^ suc n)
          ≡ top_first
              (slice_contains R slices c n)
              (bit t.comp_start_value n)
              (compare (low R c n slices) (t.comp_start_value % 2 ^ n))
      whole = rw (mod-pow-suc t.comp_start_value n) (
          unfold low in
          compare-top (slice_contains R slices c n) (bit t.comp_start_value n) n (low R c n slices)
            (t.comp_start_value % 2 ^ n) (low-lt R c n slices)
            (mod-lt t.comp_start_value (pow_pos n)))
