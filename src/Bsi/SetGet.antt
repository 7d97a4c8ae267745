-- ===== src/Bsi/SetGet.antt =====
-- Reading gives what was written: `SetValue`, `SetMany` and `GetValue`.
use bitstar.Base.{
  ℕ, ◌-◌, ◌^◌, ◌≤◌, ◌<◌, ◌≡◌, ◌≢◌, ◌⊎◌, refl, sym, ap, ◌∙◌, Bool, true, false, ◌&&◌, none, some,
  arith, ◌==◌, length, len64, lt-len64, len64-le, if◌then◌else◌, Bool-cases, Option-cases, inl, inr,
  ◌↔◌, ◌*◌,
}
use native.Mathlib.Nat.{mod-eq_of_lt}
use bitstar.Roaring.{Roaring}
use bitstar.Bsi.Defs.{
  Bsi, column, auto_size, write_bits, write_many, set_value, set_many, get_value,
}
use bitstar.Bsi.Value.{
  pow-le, slices_value, Unset, read_bits_lem, slices_value-write_bits_self,
  slices_value-write_bits_ne, slices_value-write_many, slices_value-write_many_absent,
  length-write_bits, length-write_many, Unset-write_bits, Unset-write_many,
}
use bitstar.Bsi.Grow.{grow-Grown, grow-eq-none_iff}

module _ (R : Roaring) where
  open R use {Bitmap}

  -- No slice has a bit at a column that the existence bitmap lacks, and there are at most 64.
  pub record IsValid (b : Bsi Bitmap) : Type 0 where
    pub no_stale : (c : ℕ) → R.contains b.e_bm c ≡ false → Unset R c b.b_a
    pub width : length b.b_a ≤ 64

  -- The index sizes itself, or the value has no more bits than it has slices.
  abbrev Fits : Bsi Bitmap → ℕ → Type 0
  Fits b value = ((b.max_value ≡ 0) × (b.min_value ≡ 0)) ⊎ (value < 2 ^ length b.b_a)

  -- What the index holds at a column, as the slices give it.
  abbrev pub held : Bsi Bitmap → ℕ → ℕ × Bool
  held b c = if R.contains b.e_bm c then (slices_value R c 0 b.b_a, true) else (0, false)

  pub get_value-eq-held :
      (b : Bsi Bitmap) (id : ℕ) → length b.b_a ≤ 64 → get_value R b id ≡ held b (column id)
  unfolding get_value
  get_value-eq-held b id h =
      ground
        (arith, read_bits_lem R (column id) 0 (length b.b_a) b.b_a 0 (omega arith) h (omega arith))

  record IsSized (b sized : Bsi Bitmap) (value : ℕ) : Type 0 where
    room : value < 2 ^ length sized.b_a
    width : length sized.b_a ≤ 64
    same_existence : sized.e_bm ≡ b.e_bm
    same_values : (c : ℕ) → slices_value R c 0 sized.b_a ≡ slices_value R c 0 b.b_a
    no_stale : (c : ℕ) → R.contains b.e_bm c ≡ false → Unset R c sized.b_a

  auto_size-IsSized :
      (b sized : Bsi Bitmap) (value : ℕ)
      → IsValid b
      → value < 2 ^ 64
      → Fits b value
      → auto_size R b value ≡ some sized
      → IsSized b sized value
  unfolding auto_size
  auto_size-IsSized b sized value valid small fits e =
      elim (Bool-cases (b.max_value == 0 && b.min_value == 0)) [
        | inr limited ↦
            let same : b ≡ sized = ground arith in
            rw (← same) (record {
              room = ground arith;
              width = valid.width;
              same_existence = refl;
              same_values = λ c. refl;
              no_stale = valid.no_stale;
            })
        | inl auto ↦
            let grown = grow-Grown R (len64 value - length b.b_a) b sized (ground arith) in
            record {
              room =
                  let more : 2 ^ len64 value ≤ 2 ^ length sized.b_a =
                    pow-le _ _ (omega (arith, grown.longer)) in
                  omega (arith, lt-len64 value small);
              width = omega (arith, grown.longer, len64-le value, valid.width);
              same_existence = grown.same_existence;
              same_values = λ c. grown.same_values c 0;
              no_stale = λ c absent. grown.same_unset c (valid.no_stale c absent);
            }
      ]

  -- The two outcomes of a read after a write.
  pub record IsWritten (b b' : Bsi Bitmap) (id value : ℕ) : Type 0 where
    pub reads_back : get_value R b' id ≡ (value, true)
    pub others : (other : ℕ) → column other ≢ column id → get_value R b' other ≡ get_value R b other
    pub stays_valid : IsValid b'

  -- What `SetValue` makes of the sized index.
  abbrev written : Bsi Bitmap → ℕ → ℕ → Bsi Bitmap
  written sized c value = record sized {
    b_a = write_bits R (R.contains sized.e_bm c) value c 0 sized.b_a;
    e_bm = R.add sized.e_bm c;
  }

  written-held_self :
      (sized : Bsi Bitmap) (c value : ℕ)
      → value < 2 ^ length sized.b_a
      → (R.contains sized.e_bm c ≡ false → Unset R c sized.b_a)
      → held (written sized c value) c ≡ (value, true)
  written-held_self sized c value room stale =
      let exists = R.contains sized.e_bm c in
      let low =
        slices_value-write_bits_self R exists value c 0 (length sized.b_a) sized.b_a (omega arith)
          stale in
      let whole = mod-eq_of_lt room in ground (arith, R.contains-add sized.e_bm c c, low, whole)

  written-held_ne :
      (sized : Bsi Bitmap) (c d value : ℕ) → c ≢ d → held (written sized c value) d ≡ held sized d
  written-held_ne sized c d value ne = ground (
    arith,
    R.contains-add sized.e_bm c d,
    slices_value-write_bits_ne R (R.contains sized.e_bm c) value c d 0 sized.b_a ne,
  )

  IsSized-held :
      (b sized : Bsi Bitmap) {value : ℕ} → IsSized b sized value → (c : ℕ) → held sized c ≡ held b c
  IsSized-held b sized s c =
      rw s.same_existence
        (ap (λ v. if R.contains b.e_bm c then (v, true) else (0, false)) (s.same_values c))

  -- After `SetValue` a read of the column gives the value, every other column reads as before,
  -- and the index stays well formed. The index is well formed before, and either sizes itself or
  -- has room for the value, which has 64 bits.
  pub set_value-IsWritten :
      (b b' : Bsi Bitmap) (id value : ℕ)
      → IsValid b
      → value < 2 ^ 64
      → Fits b value
      → set_value R b id value ≡ some b'
      → IsWritten b b' id value
  unfolding set_value
  set_value-IsWritten b b' id value valid small fits e = elim (Option-cases (auto_size R b value)) [
    | inl stopped ↦ absurd (ground arith)
    | inr (sized, sizing) ↦
        let c = column id in
        let s = auto_size-IsSized b sized value valid small fits sizing in
        let exists = R.contains sized.e_bm c in
        let same : written sized c value ≡ b' = ground arith in
        let len = length-write_bits R exists value c 0 sized.b_a in
        let narrow : length (written sized c value).b_a ≤ 64 = omega (arith, len, s.width) in
        rw (← same) (record {
          reads_back =
              get_value-eq-held (written sized c value) id narrow
              ∙ written-held_self sized c value s.room
                  (λ absent. s.no_stale c (rw s.same_existence at absent));
          others = λ other ne.
              get_value-eq-held (written sized c value) other narrow
              ∙ written-held_ne sized c (column other) value (λ same_column. ne (sym same_column))
              ∙ IsSized-held b sized s (column other)
              ∙ sym (get_value-eq-held b other valid.width);
          stays_valid = record {
            no_stale = λ d absent.
                let not_c : c ≢ d = λ same_column. ground (arith, R.contains-add sized.e_bm c d) in
                let was_absent : R.contains b.e_bm d ≡ false =
                  rw (← s.same_existence) (ground (arith, R.contains-add sized.e_bm c d)) in
                Unset-write_bits R exists value c d 0 sized.b_a not_c (s.no_stale d was_absent);
            width = narrow;
          };
        })
  ]

  -- `SetValue` panics exactly when the index sizes itself, is run-optimised, and the value has
  -- more than twice as many bits as the index has slices.
  pub set_value-eq-none_iff :
      (b : Bsi Bitmap) (id value : ℕ)
      → (set_value R b id value ≡ none)
        ↔ (b.max_value ≡ 0)
          × (b.min_value ≡ 0)
          × (b.run_optimized ≡ true)
          × (2 * length b.b_a < len64 value)
  unfolding set_value auto_size
  set_value-eq-none_iff b id value =
      let growth = grow-eq-none_iff R (len64 value - length b.b_a) b in
      (
        λ e. ground (arith, growth.0),
        λ h. let stops = growth.1 (h.2, omega arith) in ground (arith, stops),
      )

  abbrev written_many : Bsi Bitmap → Bitmap → ℕ → Bsi Bitmap
  written_many sized found_set value = record sized {
    b_a = write_many R found_set value 0 sized.b_a;
    e_bm = R.or sized.e_bm found_set;
  }

  written_many-held :
      (sized : Bsi Bitmap) (found_set : Bitmap) (c value : ℕ)
      → value < 2 ^ length sized.b_a
      → held (written_many sized found_set value) c
        ≡ (if R.contains found_set c then (value, true) else held sized c)
  written_many-held sized found_set c value room = elim (Bool-cases (R.contains found_set c)) [
    | inl found ↦
        let low =
          slices_value-write_many R found_set value c 0 (length sized.b_a) sized.b_a (omega arith)
            found in
        ground (arith, R.contains-or sized.e_bm found_set c, low, mod-eq_of_lt room)
    | inr absent ↦ ground (
      arith,
      R.contains-or sized.e_bm found_set c,
      slices_value-write_many_absent R found_set value c 0 sized.b_a absent,
    )
  ]

  -- After `SetMany` the columns of the set read as the value and every other column as before, and
  -- the index stays well formed. The index is well formed before, and either sizes itself or has
  -- room for the value, which has 64 bits.
  pub set_many-reads :
      (b b' : Bsi Bitmap) (found_set : Bitmap) (value : ℕ)
      → IsValid b
      → value < 2 ^ 64
      → Fits b value
      → set_many R b found_set value ≡ some b'
      → ((id : ℕ)
          → get_value R b' id
            ≡ (if R.contains found_set (column id) then (value, true) else get_value R b id))
        × IsValid b'
  unfolding set_many
  set_many-reads b b' found_set value valid small fits e =
      elim (Option-cases (auto_size R b value)) [
        | inl stopped ↦ absurd (ground arith)
        | inr (sized, sizing) ↦
            let s = auto_size-IsSized b sized value valid small fits sizing in
            let same : written_many sized found_set value ≡ b' = ground arith in
            let len = length-write_many R found_set value 0 sized.b_a in
            let narrow : length (written_many sized found_set value).b_a ≤ 64 =
              omega (arith, len, s.width) in
            rw (← same) (
              λ id.
                  get_value-eq-held (written_many sized found_set value) id narrow
                  ∙ written_many-held sized found_set (column id) value s.room
                  ∙ ap (λ r. if R.contains found_set (column id) then (value, true) else r)
                      (IsSized-held b sized s (column id)
                        ∙ sym (get_value-eq-held b id valid.width)),
              record {
                no_stale = λ d absent.
                    let or_at = R.contains-or sized.e_bm found_set d in
                    let was_absent : R.contains b.e_bm d ≡ false =
                      rw (← s.same_existence) (ground (arith, or_at)) in
                    Unset-write_many R found_set value d 0 sized.b_a (ground (arith, or_at))
                      (s.no_stale d was_absent);
                width = narrow;
              },
            )
      ]
