-- ===== src/Bsi/Coding/RoundTrip.antt =====
-- An index that is written by `MarshalBinary` and read by `UnmarshalBinary` has the same values.
use bitstar.Base.{
  ℕ, suc, ◌≤◌, ◌≡◌, refl, sym, ◌∙◌, List, [], ◌∷◌, ◌++◌, Option, none, some, arith, Bytes, length,
  length-append, Option-cases, inl, inr,
}
use bitstar.Roaring.{Roaring}
use bitstar.Bsi.Defs.{Bsi, column, get_value}
use bitstar.Bsi.SetGet.{get_value-eq-held}
use bitstar.Bsi.Coding.Defs.{
  loaded, panicked, marshal_slices, marshal_binary, optimized, load_slice, load_slices,
  load_existence, unmarshal_binary,
}
use bitstar.Bsi.Coding.Slices.{
  append_next, append-nil, SameSlices, slices_value-SameSlices, length-SameSlices,
  contains-optimized, load_slice-over, load_slice-behind,
}

module _ (R : Roaring) where
  open R use {Bitmap}

  marshal_slices-nil : (ds : List (Option Bytes)) → marshal_slices R [] ≡ some ds → [] ≡ ds
  unfolding marshal_slices
  marshal_slices-nil ds h = ground arith

  marshal_slices-cons :
      (s : Bitmap) (ss : List Bitmap) (ds : List (Option Bytes))
      → marshal_slices R (s ∷ ss) ≡ some ds
      → (d : Bytes) × (rest : List (Option Bytes)) × (R.marshal_binary s ≡ some d)
        × (marshal_slices R ss ≡ some rest)
        × (ds ≡ some d ∷ rest)
  unfolding marshal_slices
  marshal_slices-cons s ss ds h = elim (Option-cases (R.marshal_binary s)) [
    | inl none' ↦ absurd (ground arith)
    | inr (d, first) ↦ elim (Option-cases (marshal_slices R ss)) [
      | inl none' ↦ absurd (ground arith)
      | inr (rest, more) ↦ (d, rest, first, more, ground arith)
    ]
  ]

  load_slices-next :
      (j : ℕ) (d : Option Bytes) (ds : List (Option Bytes)) (b b' : Bsi Bitmap)
      → load_slice R j d b ≡ loaded b'
      → load_slices R j (d ∷ ds) b ≡ load_slices R (suc j) ds b'
  unfolding load_slices
  load_slices-next j d ds b b' h = ground (arith, h)

  -- The slices that are read stand behind those that are done.
  load_slices-SameSlices :
      (ss : List Bitmap) (ds : List (Option Bytes)) (done rest : List Bitmap) (b : Bsi Bitmap)
      → marshal_slices R ss ≡ some ds
      → b.b_a ≡ done ++ rest
      → length rest ≤ length ss
      → (new : List Bitmap) × (load_slices R (length done) ds b
          ≡ loaded (record b { b_a = done ++ new }))
        × SameSlices R ss new
  load_slices-SameSlices [] ds done [] b m e h =
      let nothing : [] ≡ ds = marshal_slices-nil ds m in
      ([], rw (← nothing, ← e) (unfold load_slices in refl), tt)
  load_slices-SameSlices [] ds done (t ∷ rest) b m e h = absurd (omega arith)
  load_slices-SameSlices (s ∷ ss) ds done [] b m e h =
      let (d, ds', first, more, whole) = marshal_slices-cons s ss ds m in
      let (bm, runs, same, long) = R.unmarshal-marshal s d first in
      let y = optimized R b bm in
      let b' : Bsi Bitmap = record b { b_a = done ++ y ∷ [] } in
      let (new, rest_runs, same_rest) =
        load_slices-SameSlices ss ds' (done ++ y ∷ []) [] b' more (sym (append_next done y []))
          (omega arith) in
      let first_runs = load_slice-behind R d bm done b long runs (e ∙ append-nil done) in
      let place : length (done ++ y ∷ []) ≡ suc (length done) =
        omega (arith, length-append done (y ∷ [])) in
      (
        y ∷ new,
        rw whole (
            load_slices-next (length done) (some d) ds' b b' first_runs
            ∙ rw (place, append_next done y new) at rest_runs),
        (λ c. contains-optimized R b bm c ∙ same c, same_rest),
      )
  load_slices-SameSlices (s ∷ ss) ds done (t ∷ rest) b m e h =
      let (d, ds', first, more, whole) = marshal_slices-cons s ss ds m in
      let (bm, runs, same, long) = R.unmarshal-marshal s d first in
      let y = optimized R b bm in
      let b' : Bsi Bitmap = record b { b_a = done ++ y ∷ rest } in
      let (new, rest_runs, same_rest) =
        load_slices-SameSlices ss ds' (done ++ y ∷ []) rest b' more (sym (append_next done y rest))
          (omega arith) in
      let first_runs = load_slice-over R d bm done t rest b long runs e in
      let place : length (done ++ y ∷ []) ≡ suc (length done) =
        omega (arith, length-append done (y ∷ [])) in
      (
        y ∷ new,
        rw whole (
            load_slices-next (length done) (some d) ds' b b' first_runs
            ∙ rw (place, append_next done y new) at rest_runs),
        (λ c. contains-optimized R b bm c ∙ same c, same_rest),
      )

  marshal_binary-parts :
      (b : Bsi Bitmap) (data' : List (Option Bytes))
      → marshal_binary R b ≡ some data'
      → (d : Bytes) × (ds : List (Option Bytes)) × (R.marshal_binary b.e_bm ≡ some d)
        × (marshal_slices R b.b_a ≡ some ds)
        × (data' ≡ some d ∷ ds)
  unfolding marshal_binary
  marshal_binary-parts b data' h = elim (Option-cases (marshal_slices R b.b_a)) [
    | inl none' ↦ absurd (ground arith)
    | inr (ds, more) ↦ elim (Option-cases (R.marshal_binary b.e_bm)) [
      | inl none' ↦ absurd (ground arith)
      | inr (d, first) ↦ (d, ds, first, more, ground arith)
    ]
  ]

  -- What `MarshalBinary` writes `UnmarshalBinary` reads back, without an error or a panic: into any
  -- index that has no more slices than the one written, whatever it held, and every column then reads
  -- as it does in the index that was written.
  pub unmarshal_binary-marshal_binary :
      (b target : Bsi Bitmap) (data' : List (Option Bytes))
      → length b.b_a ≤ 64
      → length target.b_a ≤ length b.b_a
      → marshal_binary R b ≡ some data'
      → (out : Bsi Bitmap) × (unmarshal_binary R target data' ≡ loaded out)
        × ((id : ℕ) → get_value R out id ≡ get_value R b id)
  unfolding unmarshal_binary load_existence
  unmarshal_binary-marshal_binary b target data' narrow room h =
      let (d, ds, first, more, whole) = marshal_binary-parts b data' h in
      let (new, runs, same) = load_slices-SameSlices b.b_a ds [] target.b_a target more refl room in
      let (bm, exists, same_rows, long) = R.unmarshal-marshal b.e_bm d first in
      let out : Bsi Bitmap = record target { b_a = new; e_bm = optimized R target bm } in
      let width = length-SameSlices R b.b_a new same in
      (
        out,
        rw whole (ground (arith, runs, exists)),
        λ id.
            let c = column id in
            let rows : R.contains out.e_bm c ≡ R.contains b.e_bm c =
              contains-optimized R target bm c ∙ same_rows c in
            get_value-eq-held R out id (omega (arith, width))
            ∙ ground (
              arith,
              rows,
              slices_value-SameSlices R c 0 b.b_a new same,
              get_value-eq-held R b id narrow,
            ),
      )

  -- A slice without bytes before a slice with bytes makes `UnmarshalBinary` panic on an index that
  -- has no slices, though slices without bytes are passed over.
  unmarshal_binary_gap :
      (target : Bsi Bitmap) (first : Option Bytes) (x : ℕ) (xs : Bytes) (more : List (Option Bytes))
      → target.b_a ≡ []
      → unmarshal_binary R target (first ∷ none ∷ some (x ∷ xs) ∷ more) ≡ panicked
  unfolding unmarshal_binary load_slices load_slice
  unmarshal_binary_gap target first x xs more none_there = ground arith
