-- ===== src/Bsi/Uniting.antt =====
-- `ParOr`: the slices of several indexes united, and what a narrower one among them loses.
use bitstar.Base.{
  ℕ, zero, suc, ◌+◌, ◌-◌, ◌≡◌, refl, Bool, false, ◌||◌, List, [], ◌∷◌, ◌++◌, none, some, arith, any,
  any-append, get_elem?, get_elem?-append_left, length, replicate,
}
use bitstar.Roaring.{Roaring}
use bitstar.Bsi.Defs.{Bsi}
use bitstar.Bsi.Compare.Defs.{slice_contains}
use bitstar.Bsi.Ops.{fresh, most_slices, collect_slices, merge_slices, par_or}

module _ (R : Roaring) where
  open R use {Bitmap}

  -- Does a collected slice hold the column?
  abbrev some_holds : ℕ → List Bitmap → Bool
  some_holds c ss = any (λ s. R.contains s c) ss

  -- Every index has slice `i`.
  abbrev AllHave : ℕ → List (Bsi Bitmap) → Type 0
  AllHave i [] = Unit
  AllHave i (x ∷ xs) = ((s : Bitmap) × (get_elem? x.b_a i ≡ some s)) × AllHave i xs

  collect_slices-all :
      (empty : Bitmap) (i c : ℕ) (collected : List Bitmap) (xs : List (Bsi Bitmap))
      → AllHave i xs
      → some_holds c (collect_slices R empty i collected xs)
        ≡ (some_holds c collected || any (λ x. slice_contains R x.b_a c i) xs)
  unfolding collect_slices
  collect_slices-all empty i c collected [] has = ground arith
  collect_slices-all empty i c collected (x ∷ xs) has =
      let (s, there) = has.0 in
      let rest = collect_slices-all empty i c (collected ++ s ∷ []) xs has.1 in
      let parts = any-append (λ t. R.contains t c) collected (s ∷ []) in
      ground (arith, there, rest, parts)

  -- An index without the slice throws away what was collected before it.
  collect_slices-drops :
      (empty : Bitmap) (i c : ℕ) (y : Bsi Bitmap) (zs xs : List (Bsi Bitmap))
      (collected : List Bitmap)
      → R.contains empty c ≡ false
      → get_elem? y.b_a i ≡ none
      → AllHave i zs
      → some_holds c (collect_slices R empty i collected (xs ++ y ∷ zs))
        ≡ any (λ z. slice_contains R z.b_a c i) zs
  unfolding collect_slices
  collect_slices-drops empty i c y zs [] collected clear missing has =
      let rest = collect_slices-all empty i c (empty ∷ []) zs has in
      ground (arith, missing, rest, clear)
  collect_slices-drops empty i c y zs (x ∷ xs) collected clear missing has =
      collect_slices-drops empty i c y zs xs
        (elim (get_elem? x.b_a i) [ some s ↦ collected ++ s ∷ [] | none ↦ empty ∷ [] ]) clear
        missing has

  get_elem?-merge_slices :
      (empty : Bitmap) (i k : ℕ) (ss : List Bitmap) (bsis : List (Bsi Bitmap)) (s : Bitmap)
      → get_elem? ss i ≡ some s
      → get_elem? (merge_slices R empty k ss bsis) i
        ≡ some (R.par_or (s ∷ collect_slices R empty (k + i) [] bsis))
  unfolding merge_slices
  get_elem?-merge_slices empty i k [] bsis s h = absurd (ground arith)
  get_elem?-merge_slices empty zero k (t ∷ ss) bsis s h =
      let same : t ≡ s = ground arith in
      let here : k + zero ≡ k = omega arith in rw (here, same) refl
  get_elem?-merge_slices empty (suc i) k (t ∷ ss) bsis s h =
      let here : k + suc i ≡ suc k + i = omega arith in
      rw here (get_elem?-merge_slices empty i (suc k) ss bsis s h)

  -- Slice `i` of `ParOr`, by what is collected for it.
  par_or-slice :
      (b : Bsi Bitmap) (bsis : List (Bsi Bitmap)) (i c : ℕ) (s : Bitmap)
      → get_elem? b.b_a i ≡ some s
      → slice_contains R (par_or R b bsis).b_a c i
        ≡ (R.contains s c || some_holds c (collect_slices R (fresh R b) i [] bsis))
  unfolding par_or
  par_or-slice b bsis i c s h =
      let more = replicate (most_slices R (length b.b_a) bsis - length b.b_a) (fresh R b) in
      let there = get_elem?-append_left b.b_a more i h in
      let merged = get_elem?-merge_slices (fresh R b) i 0 (b.b_a ++ more) bsis s there in
      let from_start : 0 + i ≡ i = omega arith in
      let merged' = rw from_start at merged in
      let united = R.contains-par_or (s ∷ collect_slices R (fresh R b) i [] bsis) c in
      ground (arith, merged', united)

  -- At a slice that `b` and all given indexes have, `ParOr` gives the union of their slices.
  pub par_or-unites :
      (b : Bsi Bitmap) (bsis : List (Bsi Bitmap)) (i c : ℕ) (s : Bitmap)
      → get_elem? b.b_a i ≡ some s
      → AllHave i bsis
      → slice_contains R (par_or R b bsis).b_a c i
        ≡ (R.contains s c || any (λ x. slice_contains R x.b_a c i) bsis)
  par_or-unites b bsis i c s h has =
      let collected = collect_slices-all (fresh R b) i c [] bsis has in
      ground (arith, par_or-slice b bsis i c s h, collected)

  -- When one of the given indexes lacks the slice, `ParOr` gives the union of the slices of `b` and
  -- of the indexes behind that one: those of the indexes `xs` before it are lost.
  pub par_or_drops :
      (b : Bsi Bitmap) (xs : List (Bsi Bitmap)) (y : Bsi Bitmap) (zs : List (Bsi Bitmap)) (i c : ℕ)
      (s : Bitmap)
      → get_elem? b.b_a i ≡ some s
      → get_elem? y.b_a i ≡ none
      → AllHave i zs
      → slice_contains R (par_or R b (xs ++ y ∷ zs)).b_a c i
        ≡ (R.contains s c || any (λ z. slice_contains R z.b_a c i) zs)
  par_or_drops b xs y zs i c s h missing has =
      let clear : R.contains (fresh R b) c ≡ false =
        ground (arith, R.contains-new c, R.contains-run_optimize R.new c) in
      let collected = collect_slices-drops (fresh R b) i c y zs xs [] clear missing has in
      ground (arith, par_or-slice b (xs ++ y ∷ zs) i c s h, collected)
