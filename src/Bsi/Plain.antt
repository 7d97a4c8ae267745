-- ===== src/Bsi/Plain.antt =====
-- What `SetValue` never changes: the limits, and that an index is not run-optimised. On such an
-- index it never panics.
use bitstar.Base.{
  ℕ, zero, suc, ◌-◌, ◌≡◌, refl, false, ◌&&◌, [], ◌∷◌, ◌++◌, Option, some, arith, ◌==◌, Bool-cases,
  Option-cases, inl, inr, len64, length,
}
use bitstar.Roaring.{Roaring}
use bitstar.Bsi.Grow.{grow-Grown}
use bitstar.Bsi.Defs.{Bsi, column, append_slice, grow, auto_size, write_bits, set_value}

module _ (R : Roaring) where
  open R use {Bitmap}

  -- The call returns an index that is not run-optimised.
  abbrev ReturnsPlain : Option (Bsi Bitmap) → Type 0
  ReturnsPlain result = (b : Bsi Bitmap) × (result ≡ some b) × (b.run_optimized ≡ false)

  grow-ReturnsPlain : (n : ℕ) (b : Bsi Bitmap) → b.run_optimized ≡ false → ReturnsPlain (grow R n b)
  unfolding grow append_slice
  grow-ReturnsPlain zero b plain = (b, refl, plain)
  grow-ReturnsPlain (suc n) b plain =
      let (b', runs, flag) = grow-ReturnsPlain n (record b { b_a = b.b_a ++ R.new ∷ [] }) plain in
      (b', ground (arith, runs), flag)

  auto_size-ReturnsPlain :
      (b : Bsi Bitmap) (value : ℕ) → b.run_optimized ≡ false → ReturnsPlain (auto_size R b value)
  unfolding auto_size
  auto_size-ReturnsPlain b value plain = elim (Bool-cases (b.max_value == 0 && b.min_value == 0)) [
    | inl auto ↦
        let (b', runs, flag) = grow-ReturnsPlain (len64 value - length b.b_a) b plain in
        (b', ground (arith, runs), flag)
    | inr limited ↦ (b, ground arith, plain)
  ]

  pub set_value-ReturnsPlain :
      (b : Bsi Bitmap) (id value : ℕ)
      → b.run_optimized ≡ false
      → ReturnsPlain (set_value R b id value)
  unfolding set_value
  set_value-ReturnsPlain b id value plain =
      let (sized, runs, flag) = auto_size-ReturnsPlain b value plain in
      let c = column id in
      let written = record sized {
        b_a = write_bits R (R.contains sized.e_bm c) value c 0 sized.b_a;
        e_bm = R.add sized.e_bm c;
      } in
      (written, ground (arith, runs), flag)

  -- `SetValue` changes neither limit of the index.
  pub set_value-limits :
      (b b' : Bsi Bitmap) (id value : ℕ)
      → set_value R b id value ≡ some b'
      → (b'.max_value ≡ b.max_value) × (b'.min_value ≡ b.min_value)
  unfolding set_value auto_size
  set_value-limits b b' id value h = elim (Bool-cases (b.max_value == 0 && b.min_value == 0)) [
    | inr limited ↦ ground arith
    | inl auto ↦ elim (Option-cases (grow R (len64 value - length b.b_a) b)) [
      | inl stopped ↦ absurd (ground arith)
      | inr (grown, grew) ↦
          let kept = grow-Grown R (len64 value - length b.b_a) b grown grew in
          ground (arith, kept.same_max, kept.same_min)
    ]
  ]
