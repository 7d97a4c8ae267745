-- ===== src/Bsi/Grow.antt =====
-- Growing the slices keeps the values, and panics exactly on a run-optimised index that more than
-- doubles.
use bitstar.Base.{
  ℕ, zero, suc, ◌+◌, ◌<◌, ◌≡◌, ◌↔◌, refl, sym, ◌∙◌, true, List, [], ◌∷◌, ◌++◌, none, some, arith,
  length, get_elem?, get_elem?-lt, get_elem?-ge, dec_lt, set, length-append, length-set, Bool-cases,
  Option-cases, inl, inr,
}
use bitstar.Roaring.{Roaring}
use bitstar.Bsi.Defs.{Bsi, append_slice, grow}
use bitstar.Bsi.Value.{slices_value, Unset}

module _ (R : Roaring) where
  open R use {Bitmap}

  pub slices_value-append_new :
      (c i : ℕ) (ss : List Bitmap) → slices_value R c i (ss ++ R.new ∷ []) ≡ slices_value R c i ss
  unfolding slices_value
  slices_value-append_new c i [] = ground (arith, R.contains-new c)
  slices_value-append_new c i (s ∷ ss) = ground (arith, slices_value-append_new c (suc i) ss)

  Unset-append_new : (c : ℕ) (ss : List Bitmap) → Unset R c ss → Unset R c (ss ++ R.new ∷ [])
  Unset-append_new c [] u = (R.contains-new c, tt)
  Unset-append_new c (s ∷ ss) u = (u.0, Unset-append_new c ss u.1)

  slices_value-optimize :
      (c i k : ℕ) (ss : List Bitmap) (bm : Bitmap)
      → get_elem? ss k ≡ some bm
      → slices_value R c i (set ss k (R.run_optimize bm)) ≡ slices_value R c i ss
  unfolding slices_value
  slices_value-optimize c i k [] bm e = refl
  slices_value-optimize c i zero (s ∷ ss) bm e =
      let e' : s ≡ bm = cc in rw e' (ground (arith, R.contains-run_optimize bm c))
  slices_value-optimize c i (suc k) (s ∷ ss) bm e =
      ground (arith, slices_value-optimize c (suc i) k ss bm e)

  Unset-optimize :
      (c k : ℕ) (ss : List Bitmap) (bm : Bitmap)
      → get_elem? ss k ≡ some bm
      → Unset R c ss
      → Unset R c (set ss k (R.run_optimize bm))
  Unset-optimize c k [] bm e u = tt
  Unset-optimize c zero (s ∷ ss) bm e u =
      (let e' : s ≡ bm = cc in R.contains-run_optimize bm c ∙ (rw (← e') u.0), u.1)
  Unset-optimize c (suc k) (s ∷ ss) bm e u = (u.0, Unset-optimize c k ss bm e u.1)

  -- `b'` is `b` with `n` more slices and the same values.
  pub record Grown (n : ℕ) (b b' : Bsi Bitmap) : Type 0 where
    pub same_existence : b'.e_bm ≡ b.e_bm
    pub same_max : b'.max_value ≡ b.max_value
    pub same_min : b'.min_value ≡ b.min_value
    pub same_flag : b'.run_optimized ≡ b.run_optimized
    pub longer : length b'.b_a ≡ n + length b.b_a
    pub same_values : (c i : ℕ) → slices_value R c i b'.b_a ≡ slices_value R c i b.b_a
    pub same_unset : (c : ℕ) → Unset R c b.b_a → Unset R c b'.b_a

  Grown-trans : {n m : ℕ} {a b b' : Bsi Bitmap} → Grown n a b → Grown m b b' → Grown (n + m) a b'
  Grown-trans g h = record {
    same_existence = h.same_existence ∙ g.same_existence;
    same_max = h.same_max ∙ g.same_max;
    same_min = h.same_min ∙ g.same_min;
    same_flag = h.same_flag ∙ g.same_flag;
    longer = omega (arith, g.longer, h.longer);
    same_values = λ c i. h.same_values c i ∙ g.same_values c i;
    same_unset = λ c u. h.same_unset c (g.same_unset c u);
  }

  Grown-slices :
      (n : ℕ) (b : Bsi Bitmap) (ss : List Bitmap)
      → length ss ≡ n + length b.b_a
      → ((c i : ℕ) → slices_value R c i ss ≡ slices_value R c i b.b_a)
      → ((c : ℕ) → Unset R c b.b_a → Unset R c ss)
      → Grown n b (record b { b_a = ss })
  Grown-slices n b ss len vals uns = record {
    same_existence = refl;
    same_max = refl;
    same_min = refl;
    same_flag = refl;
    longer = len;
    same_values = vals;
    same_unset = uns;
  }

  append_slice-Grown : (i : ℕ) (b b' : Bsi Bitmap) → append_slice R i b ≡ some b' → Grown 1 b b'
  unfolding append_slice
  append_slice-Grown i b b' e = elim (Bool-cases b.run_optimized) [
    | inr plain ↦
        let e' : record b { b_a = appended } ≡ b' = ground arith in
        rw (← e') (
          Grown-slices 1 b appended (omega (arith, grown_by_one))
            (λ c i. slices_value-append_new c i b.b_a) (λ c. Unset-append_new c b.b_a))
    | inl optimized ↦ elim (Option-cases (get_elem? appended i)) [
      | inl out_of_range ↦ absurd (ground arith)
      | inr (bm, at_i) ↦
          let ss = set appended i (R.run_optimize bm) in
          let e' : record b { b_a = ss } ≡ b' = ground arith in
          rw (← e') (
            Grown-slices 1 b ss
              (omega (arith, grown_by_one, length-set appended i (R.run_optimize bm)))
              (λ c k.
                slices_value-optimize c k i appended bm at_i ∙ slices_value-append_new c k b.b_a)
              (λ c u. Unset-optimize c i appended bm at_i (Unset-append_new c b.b_a u)))
    ]
  ]
    where
      appended : List Bitmap
      appended = b.b_a ++ R.new ∷ []

      grown_by_one : length appended ≡ length b.b_a + 1
      grown_by_one = length-append b.b_a (R.new ∷ [])

  pub grow-Grown : (n : ℕ) (b b' : Bsi Bitmap) → grow R n b ≡ some b' → Grown n b b'
  unfolding grow
  grow-Grown zero b b' e =
      let e' : b ≡ b' = cc in
      rw (← e') (Grown-slices 0 b b.b_a (omega arith) (λ c i. refl) (λ c u. u))
  grow-Grown (suc n) b b' e = elim (Option-cases (append_slice R (suc n) b)) [
    | inl stopped ↦ absurd (ground arith)
    | inr (b₁, one) ↦
        let rest : grow R n b₁ ≡ some b' = ground arith in
        let count : 1 + n ≡ suc n = omega arith in
        rw count at (Grown-trans (append_slice-Grown (suc n) b b₁ one) (grow-Grown n b₁ b' rest))
  ]

  append_slice-eq-none_iff :
      (i : ℕ) (b : Bsi Bitmap)
      → (append_slice R i b ≡ none) ↔ (b.run_optimized ≡ true) × (length b.b_a < i)
  unfolding append_slice
  append_slice-eq-none_iff i b = (from i b, to i b)
    where
      from :
          (i : ℕ) (b : Bsi Bitmap)
          → append_slice R i b ≡ none
          → (b.run_optimized ≡ true) × (length b.b_a < i)
      from i b e = elim (dec_lt (length b.b_a) i) [
        | yes far ↦ (ground arith, far)
        | no near ↦
            let found =
              get_elem?-lt (b.b_a ++ R.new ∷ []) i
                (omega (arith, length-append b.b_a (R.new ∷ []))) in
            absurd (ground (arith, found.1))
      ]

      to :
          (i : ℕ) (b : Bsi Bitmap)
          → (b.run_optimized ≡ true) × (length b.b_a < i)
          → append_slice R i b ≡ none
      to i b h =
          let missing =
            get_elem?-ge (b.b_a ++ R.new ∷ []) i
              (omega (arith, length-append b.b_a (R.new ∷ []))) in
          ground (arith, missing)

  pub grow-eq-none_iff :
      (n : ℕ) (b : Bsi Bitmap) → (grow R n b ≡ none) ↔ (b.run_optimized ≡ true) × (length b.b_a < n)
  unfolding grow
  grow-eq-none_iff zero b = ground arith
  grow-eq-none_iff (suc n) b = elim (Option-cases (append_slice R (suc n) b)) [
    | inl stopped ↦ (λ e. (append_slice-eq-none_iff (suc n) b).0 stopped, λ h. ground arith)
    | inr (b₁, one) ↦
        let more = append_slice-Grown (suc n) b b₁ one in
        let never : ¬ ((b.run_optimized ≡ true) × (length b.b_a < suc n)) =
          λ h. cc ((append_slice-eq-none_iff (suc n) b).1 h, one) in
        (
          λ e.
              let rest : grow R n b₁ ≡ none = ground arith in
              let later = (grow-eq-none_iff n b₁).0 rest in
              absurd (never (sym more.same_flag ∙ later.0, omega (arith, later.1, more.longer))),
          λ h. absurd (never h),
        )
  ]
