-- ===== src/Bsi/Sets.antt =====
-- Removing, retaining and merging columns: `ClearValues`, `NewBSIRetainSet`, `Clone` and `ParOr`.
use bitstar.Base.{
  ℕ, suc, ◌≤◌, ◌≡◌, ◌∙◌, true, false, List, [], ◌∷◌, map, arith, if◌then◌else◌, length, length-map,
  ◌⊎◌, Bool-cases, inl, inr,
}
use bitstar.Roaring.{Roaring}
use bitstar.Bsi.Defs.{Bsi, column, get_value}
use bitstar.Bsi.Value.{slices_value, Unset}
use bitstar.Bsi.SetGet.{get_value-eq-held, IsValid}
use bitstar.Bsi.Ops.{clear_values, new_bsi_retain_set, clone}

module _ (R : Roaring) where
  open R use {Bitmap}

  slices_value-and :
      (f : Bitmap) (c i : ℕ) (ss : List Bitmap)
      → slices_value R c i (map (λ s. R.and s f) ss)
        ≡ (if R.contains f c then slices_value R c i ss else 0)
  unfolding slices_value
  slices_value-and f c i [] = ground arith
  slices_value-and f c i (s ∷ ss) =
      ground (arith, slices_value-and f c (suc i) ss, R.contains-and s f c)

  slices_value-and_not :
      (f : Bitmap) (c i : ℕ) (ss : List Bitmap)
      → slices_value R c i (map (λ s. R.and_not s f) ss)
        ≡ (if R.contains f c then 0 else slices_value R c i ss)
  unfolding slices_value
  slices_value-and_not f c i [] = ground arith
  slices_value-and_not f c i (s ∷ ss) =
      ground (arith, slices_value-and_not f c (suc i) ss, R.contains-and_not s f c)

  Unset-and :
      (f : Bitmap) (c : ℕ) (ss : List Bitmap)
      → (R.contains f c ≡ false) ⊎ Unset R c ss
      → Unset R c (map (λ s. R.and s f) ss)
  Unset-and f c [] h = tt
  Unset-and f c (s ∷ ss) (inl h) = (ground (arith, R.contains-and s f c), Unset-and f c ss (inl h))
  Unset-and f c (s ∷ ss) (inr h) =
      (ground (arith, R.contains-and s f c), Unset-and f c ss (inr h.1))

  Unset-and_not :
      (f : Bitmap) (c : ℕ) (ss : List Bitmap)
      → (R.contains f c ≡ true) ⊎ Unset R c ss
      → Unset R c (map (λ s. R.and_not s f) ss)
  Unset-and_not f c [] h = tt
  Unset-and_not f c (s ∷ ss) (inl h) =
      (ground (arith, R.contains-and_not s f c), Unset-and_not f c ss (inl h))
  Unset-and_not f c (s ∷ ss) (inr h) =
      (ground (arith, R.contains-and_not s f c), Unset-and_not f c ss (inr h.1))

  -- On a well-formed index, after `ClearValues` the columns of the set read as missing and every
  -- other column reads as before, and the index stays well formed.
  pub clear_values-reads :
      (b : Bsi Bitmap) (f : Bitmap)
      → IsValid R b
      → ((id : ℕ)
          → get_value R (clear_values R b f) id
            ≡ (if R.contains f (column id) then (0, false) else get_value R b id))
        × IsValid R (clear_values R b f)
  clear_values-reads b f valid = (
    λ id.
        get_value-eq-held R (clear_values R b f) id narrow
        ∙ unfold clear_values in
          (ground (
            arith,
            R.contains-and_not b.e_bm f (column id),
            slices_value-and_not f (column id) 0 b.b_a,
            get_value-eq-held R b id valid.width,
          )),
    record {
      no_stale = λ c absent.
          unfold clear_values in
          Unset-and_not f c b.b_a (elim (Bool-cases (R.contains f c)) [
            | inl found ↦ inl found
            | inr other ↦ inr (
                valid.no_stale c
                  (unfold clear_values in ground (arith, R.contains-and_not b.e_bm f c)))
          ]);
      width = narrow;
    },
  )
    where
      narrow : length (clear_values R b f).b_a ≤ 64
      narrow =
          unfold clear_values in omega (arith, length-map (λ s. R.and_not s f) b.b_a, valid.width)

  -- Of a well-formed index `NewBSIRetainSet` keeps the columns of the set as they read before and
  -- drops every other, and the new index is well formed.
  new_bsi_retain_set-reads :
      (b : Bsi Bitmap) (f : Bitmap)
      → IsValid R b
      → ((id : ℕ)
          → get_value R (new_bsi_retain_set R b f) id
            ≡ (if R.contains f (column id) then get_value R b id else (0, false)))
        × IsValid R (new_bsi_retain_set R b f)
  new_bsi_retain_set-reads b f valid = (
    λ id.
        get_value-eq-held R (new_bsi_retain_set R b f) id narrow
        ∙ unfold new_bsi_retain_set in
          (ground (
            arith,
            R.contains-and b.e_bm f (column id),
            slices_value-and f (column id) 0 b.b_a,
            get_value-eq-held R b id valid.width,
          )),
    record {
      no_stale = λ c absent.
          unfold new_bsi_retain_set in
          Unset-and f c b.b_a (elim (Bool-cases (R.contains f c)) [
            | inl found ↦ inr (
                valid.no_stale c
                  (unfold new_bsi_retain_set in ground (arith, R.contains-and b.e_bm f c)))
            | inr other ↦ inl other
          ]);
      width = narrow;
    },
  )
    where
      narrow : length (new_bsi_retain_set R b f).b_a ≤ 64
      narrow =
          unfold new_bsi_retain_set in omega (arith, length-map (λ s. R.and s f) b.b_a, valid.width)

  -- `Clone` of a well-formed index reads as the index that it copies.
  get_value-clone :
      (b : Bsi Bitmap) (id : ℕ) → IsValid R b → get_value R (clone R b) id ≡ get_value R b id
  unfolding clone
  get_value-clone b id valid = (new_bsi_retain_set-reads b b.e_bm valid).0 id ∙ missing
    where
      missing :
          (if R.contains b.e_bm (column id) then get_value R b id else (0, false))
          ≡ get_value R b id
      missing = ground (arith, get_value-eq-held R b id valid.width)
