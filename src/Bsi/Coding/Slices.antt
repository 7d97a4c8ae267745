-- ===== src/Bsi/Coding/Slices.antt =====
-- A round of `UnmarshalBinary`, and slices that hold the same sets.
use bitstar.Base.{
  ℕ, suc, ◌<◌, ◌≡◌, refl, ap, true, false, List, [], ◌∷◌, ◌++◌, some, arith, Bytes, ltb, length,
  length-append, get_elem?, set,
}
use bitstar.Roaring.{Roaring}
use bitstar.Bsi.Defs.{Bsi}
use bitstar.Bsi.Value.{slices_value}
use bitstar.Bsi.Coding.Defs.{loaded, optimized, load_slice}

module _ {ℓ} {A : Type ℓ} where
  pub append_next :
      (done : List A) (y : A) (rest : List A) → (done ++ y ∷ []) ++ rest ≡ done ++ y ∷ rest
  append_next [] y rest = refl
  append_next (x ∷ done) y rest = ap (λ t. x ∷ t) (append_next done y rest)

  pub append-nil : (xs : List A) → xs ++ [] ≡ xs
  append-nil [] = refl
  append-nil (x ∷ xs) = ap (λ t. x ∷ t) (append-nil xs)

  get_elem?-append_next :
      (done : List A) (x : A) (rest : List A) → get_elem? (done ++ x ∷ rest) (length done) ≡ some x
  get_elem?-append_next [] x rest = refl
  get_elem?-append_next (y ∷ done) x rest = get_elem?-append_next done x rest

  set-append_next :
      (done : List A) (x y : A) (rest : List A)
      → set (done ++ x ∷ rest) (length done) y ≡ done ++ y ∷ rest
  set-append_next [] x y rest = refl
  set-append_next (z ∷ done) x y rest = ap (λ t. z ∷ t) (set-append_next done x y rest)

module _ (R : Roaring) where
  open R use {Bitmap}

  -- Slice by slice the same sets.
  abbrev pub SameSlices : List Bitmap → List Bitmap → Type 0
  SameSlices [] [] = Unit
  SameSlices [] (t ∷ ts) = ⊥
  SameSlices (s ∷ ss) [] = ⊥
  SameSlices (s ∷ ss) (t ∷ ts) = ((c : ℕ) → R.contains t c ≡ R.contains s c) × SameSlices ss ts

  pub slices_value-SameSlices :
      (c i : ℕ) (ss ts : List Bitmap)
      → SameSlices ss ts
      → slices_value R c i ts ≡ slices_value R c i ss
  unfolding slices_value
  slices_value-SameSlices c i [] [] h = refl
  slices_value-SameSlices c i [] (t ∷ ts) h = absurd h
  slices_value-SameSlices c i (s ∷ ss) [] h = absurd h
  slices_value-SameSlices c i (s ∷ ss) (t ∷ ts) h =
      ground (arith, h.0 c, slices_value-SameSlices c (suc i) ss ts h.1)

  pub length-SameSlices : (ss ts : List Bitmap) → SameSlices ss ts → length ts ≡ length ss
  length-SameSlices [] [] h = refl
  length-SameSlices [] (t ∷ ts) h = absurd h
  length-SameSlices (s ∷ ss) [] h = absurd h
  length-SameSlices (s ∷ ss) (t ∷ ts) h = ap suc (length-SameSlices ss ts h.1)

  pub contains-optimized :
      (b : Bsi Bitmap) (bm : Bitmap) (c : ℕ) → R.contains (optimized R b bm) c ≡ R.contains bm c
  contains-optimized b bm c = ground (arith, R.contains-run_optimize bm c)

  -- A slice of bytes that is read as the bitmap goes to the next place, over a slice or behind all.
  pub load_slice-over :
      (d : Bytes) (bm : Bitmap) (done : List Bitmap) (t : Bitmap) (rest : List Bitmap)
      (b : Bsi Bitmap)
      → 0 < length d
      → R.unmarshal_binary d ≡ some bm
      → b.b_a ≡ done ++ t ∷ rest
      → load_slice R (length done) (some d) b
        ≡ loaded (record b { b_a = done ++ optimized R b bm ∷ rest })
  unfolding load_slice
  load_slice-over [] bm done t rest b h runs e = absurd (omega arith)
  load_slice-over (x ∷ xs) bm done t rest b h runs e =
      let long : ltb (length b.b_a) (suc (length done)) ≡ false =
        rw e (ground (arith, length-append done (t ∷ rest))) in
      let there : get_elem? b.b_a (length done) ≡ some t =
        rw e (get_elem?-append_next done t rest) in
      let put : set b.b_a (length done) (optimized R b bm) ≡ done ++ optimized R b bm ∷ rest =
        rw e (set-append_next done t (optimized R b bm) rest) in
      ground (arith, long, there, runs, put)

  pub load_slice-behind :
      (d : Bytes) (bm : Bitmap) (done : List Bitmap) (b : Bsi Bitmap)
      → 0 < length d
      → R.unmarshal_binary d ≡ some bm
      → b.b_a ≡ done
      → load_slice R (length done) (some d) b
        ≡ loaded (record b { b_a = done ++ optimized R b bm ∷ [] })
  unfolding load_slice
  load_slice-behind [] bm done b h runs e = absurd (omega arith)
  load_slice-behind (x ∷ xs) bm done b h runs e =
      let short : ltb (length b.b_a) (suc (length done)) ≡ true = rw e (ground arith) in
      let there : get_elem? (b.b_a ++ optimized R b R.new ∷ []) (length done)
          ≡ some (optimized R b R.new) =
        rw e (get_elem?-append_next done (optimized R b R.new) []) in
      let put : set (b.b_a ++ optimized R b R.new ∷ []) (length done) (optimized R b bm)
          ≡ done ++ optimized R b bm ∷ [] =
        rw e (set-append_next done (optimized R b R.new) (optimized R b bm) []) in
      ground (arith, short, there, runs, put)
