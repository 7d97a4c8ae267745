-- ===== src/Index/Merge/Maps.antt =====
-- The loops of `mergeTwoIndices` over tags and annotations, and those of `mergeBSI` over slices.
use bitstar.Base.{
  ℕ, suc, ◌≤◌, ◌<◌, ◌≡◌, ◌↔◌, refl, ap, ◌∙◌, Bool, true, false, ◌||◌, List, [], ◌∷◌, none, some,
  arith, length, elem, any, Bool-cases, inl, inr, lookup_by, insert_by, entry_or,
  lookup_by-insert_by,
}
use bitstar.Roaring.{Roaring}
use bitstar.Bsi.Value.{slices_value, Unset}
use bitstar.Index.Rows.{tells-IsEquality}
use bitstar.Index.Merge.Defs.{move_map, merge_maps, move_slices}
use bitstar.Index.Merge.Move.{lands, IsOwn, IsFree, move_bitmap-lands, moved_own, moved_free}

module _ (R : Roaring) where
  open R use {Bitmap}

  -- The bitmap has no row from `n` on.
  abbrev pub IsShort : ℕ → Bitmap → Type 0
  IsShort n b = (c : ℕ) → R.contains b c ≡ true → c < n

  -- Every key stands once, with a bitmap that has no row from `n` on.
  abbrev pub IsRowMap {ℓ} : {K : Type ℓ} → (K → K → Bool) → ℕ → List (K × Bitmap) → Type 0
  IsRowMap same n [] = Unit
  IsRowMap same n ((k, rb) ∷ m) = IsShort n rb × (lookup_by same k m ≡ none) × IsRowMap same n m

  none_in : (ids : List ℕ) (p : ℕ → Bool) → ((c : ℕ) → elem c ids ≡ false) → any p ids ≡ false
  none_in [] p h = refl
  none_in (id ∷ ids) p h = absurd (ground (arith, h id))

  nothing_of_new : (p : ℕ → Bool) → any p (R.to_array R.new) ≡ false
  nothing_of_new p = none_in (R.to_array R.new) p (λ c. R.elem-to_array R.new c ∙ R.contains-new c)

  move_map-lands {ℓ} :
      {K : Type ℓ} (same : K → K → Bool)
      → ((a b : K) → (same a b ≡ true) ↔ (a ≡ b))
      → (m : List (K × Bitmap)) (remap : List ℕ) (out : List (K × Bitmap))
      → IsRowMap same (length remap) m
      → (result : List (K × Bitmap)) × (move_map R same m remap out ≡ some result)
        × ((name : K) (c : ℕ)
            → R.contains (entry_or same R.new name result) c ≡ (
                any (lands remap c) (R.to_array (entry_or same R.new name m))
                || R.contains (entry_or same R.new name out) c))
  unfolding move_map lookup_by
  move_map-lands same tells [] remap out rows =
      (out, refl, λ name c. let nothing = nothing_of_new (lands remap c) in ground (arith, nothing))
  move_map-lands same tells ((k, rb) ∷ m) remap out rows =
      let (moved, runs, holds) = move_bitmap-lands R rb (entry_or same R.new k out) remap rows.0 in
      let (result, runs', holds') =
        move_map-lands same tells m remap (insert_by same k moved out) rows.2 in
      (
        result,
        ground (arith, runs, runs'),
        λ name c.
            let found = lookup_by-insert_by same (tells-IsEquality same tells) k name moved out in
            elim (Bool-cases (same k name)) [
              | inl here ↦
                  let same_name : k ≡ name = (tells k name).0 here in
                  let alone : lookup_by same name m ≡ none = rw same_name at rows.1 in
                  let old : R.contains (entry_or same R.new k out) c
                      ≡ R.contains (entry_or same R.new name out) c =
                    ap (λ x. R.contains (entry_or same R.new x out) c) same_name in
                  let nothing = nothing_of_new (lands remap c) in
                  holds' name c ∙ ground (arith, found, alone, holds c, old, nothing)
              | inr other ↦ holds' name c ∙ ground (arith, found)
            ],
      )

  -- The maps of two indexes in one: the new row of a row is in the bitmaps that the row was in.
  pub record IsMapMerge {ℓ} {K : Type ℓ} (same : K → K → Bool) (a b out : List (K × Bitmap))
      (remap_a remap_b : List ℕ) : Type ℓ where
    pub own_a :
        (i r : ℕ)
        → IsOwn remap_a i r
        → IsFree remap_b r
        → (name : K)
        → R.contains (entry_or same R.new name out) r ≡ R.contains (entry_or same R.new name a) i
    pub own_b :
        (j r : ℕ)
        → IsOwn remap_b j r
        → IsFree remap_a r
        → (name : K)
        → R.contains (entry_or same R.new name out) r ≡ R.contains (entry_or same R.new name b) j

  pub merge_maps-IsMapMerge {ℓ} :
      {K : Type ℓ} (same : K → K → Bool)
      → ((a b : K) → (same a b ≡ true) ↔ (a ≡ b))
      → (a b : List (K × Bitmap)) (remap_a remap_b : List ℕ) → IsRowMap same (length remap_a) a
      → IsRowMap same (length remap_b) b
      → (out : List (K × Bitmap)) × (merge_maps R same a b remap_a remap_b ≡ some out)
        × IsMapMerge same a b out remap_a remap_b
  unfolding merge_maps lookup_by
  merge_maps-IsMapMerge same tells a b remap_a remap_b rows_a rows_b =
      let (with_a, runs, holds) = move_map-lands same tells a remap_a [] rows_a in
      let (out, runs', holds') = move_map-lands same tells b remap_b with_a rows_b in
      (
        out,
        ground (arith, runs, runs'),
        record {
          own_a = λ i r own free name. ground (
            arith,
            holds' name r,
            holds name r,
            moved_free R (entry_or same R.new name b) remap_b r free,
            moved_own R (entry_or same R.new name a) remap_a i r own,
            R.contains-new r,
          );
          own_b = λ j r own free name. ground (
            arith,
            holds' name r,
            holds name r,
            moved_free R (entry_or same R.new name a) remap_a r free,
            moved_own R (entry_or same R.new name b) remap_b j r own,
            R.contains-new r,
          );
        },
      )

  -- No slice has a row from `n` on.
  abbrev pub AllShort : ℕ → List Bitmap → Type 0
  AllShort n [] = Unit
  AllShort n (s ∷ ss) = IsShort n s × AllShort n ss

  -- The slices after a move: the new row of a row has its value, and a row that none goes to keeps
  -- its own.
  pub record IsSliceMove (ss ds out : List Bitmap) (remap : List ℕ) : Type 0 where
    pub same_length : length out ≡ length ds
    pub own_value :
        (i r k : ℕ)
        → IsOwn remap i r
        → Unset R r ds
        → slices_value R r k out ≡ slices_value R i k ss
    pub free_value : (r k : ℕ) → IsFree remap r → slices_value R r k out ≡ slices_value R r k ds
    pub free_unset : (r : ℕ) → IsFree remap r → Unset R r ds → Unset R r out

  slices_value-Unset : (c k : ℕ) (ds : List Bitmap) → Unset R c ds → slices_value R c k ds ≡ 0
  unfolding slices_value
  slices_value-Unset c k [] u = refl
  slices_value-Unset c k (d ∷ ds) u = ground (arith, u.0, slices_value-Unset c (suc k) ds u.1)

  pub move_slices-IsSliceMove :
      (ss ds : List Bitmap) (remap : List ℕ)
      → AllShort (length remap) ss
      → length ss ≤ length ds
      → (out : List Bitmap) × (move_slices R ss remap ds ≡ some out) × IsSliceMove ss ds out remap
  unfolding move_slices slices_value
  move_slices-IsSliceMove [] ds remap short fits = (
    ds,
    refl,
    record {
      same_length = refl;
      own_value = λ i r k own unset. slices_value-Unset r k ds unset;
      free_value = λ r k free. refl;
      free_unset = λ r free unset. unset;
    },
  )
  move_slices-IsSliceMove (s ∷ ss) [] remap short fits = absurd (omega arith)
  move_slices-IsSliceMove (s ∷ ss) (d ∷ ds) remap short fits =
      let (moved, runs, holds) = move_bitmap-lands R s d remap short.0 in
      let (out, runs', rest) = move_slices-IsSliceMove ss ds remap short.1 (omega arith) in
      (
        moved ∷ out,
        ground (arith, runs, runs'),
        record {
          same_length = omega (arith, rest.same_length);
          own_value = λ i r k own unset. ground (
            arith,
            holds r,
            moved_own R s remap i r own,
            unset.0,
            rest.own_value i r (suc k) own unset.1,
          );
          free_value = λ r k free.
              ground (arith, holds r, moved_free R s remap r free, rest.free_value r (suc k) free);
          free_unset = λ r free unset. (
            ground (arith, holds r, moved_free R s remap r free, unset.0),
            rest.free_unset r free unset.1,
          );
        },
      )
