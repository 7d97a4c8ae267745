-- ===== src/Storage/Levels.antt =====
-- `mergeLevel`: a pending index goes into the levels, and a level that is full into the next one.
use bitstar.Base.{
  ℕ, ◌≡◌, ◌<◌, Bool, false, ◌||◌, Option, none, some, leb, arith, if◌then◌else◌, refl, Bool-cases,
  inl, inr,
}
use bitstar.Storage.Parts.{Parts}

-- `levelLimit`.
abbrev pub level_limit_0 : ℕ
level_limit_0 = 256_000

abbrev pub level_limit_1 : ℕ
level_limit_1 = 1_024_000

abbrev pub level_limit_2 : ℕ
level_limit_2 = 4_096_000

-- `[4]*roaringIndex`.
pub record Levels (Index : Type 0) : Type 0 where
  pub l0 : Option Index
  pub l1 : Option Index
  pub l2 : Option Index
  pub l3 : Option Index

module _ (P : Parts) where
  open P use {Index}

  -- `mergeTwoIndices`, with its tests for nil.
  unfoldable pub merge_ptr : Option Index → Option Index → Option Index
  merge_ptr none b = b
  merge_ptr (some a) none = some a
  merge_ptr (some a) (some b) = some (P.merge_two_indices a b)

  -- A round of the loop: the pair of levels `i` and `i + 1` after it.
  unfoldable spill : ℕ → Option Index → Option Index → Option Index × Option Index
  unfolding merge_ptr
  spill limit none next = (none, next)
  spill limit (some a) next =
      if leb limit (P.cardinality a) then (none, merge_ptr (some a) next) else (some a, next)

  -- The test on level 0.
  abbrev first_level : Option Index → Index → Option Index
  first_level none ri = some ri
  first_level (some l) ri = merge_ptr (some l) (some ri)

  -- `mergeLevel`, up to the store of the levels.
  unfoldable pub merge_level : Levels Index → Index → Levels Index
  unfolding spill merge_ptr
  merge_level levels ri =
      let first = first_level levels.l0 ri in
      let (l0, m1) = spill level_limit_0 first levels.l1 in
      let (l1, m2) = spill level_limit_1 m1 levels.l2 in
      let (l2, l3) = spill level_limit_2 m2 levels.l3 in
      record { l0 = l0; l1 = l1; l2 = l2; l3 = l3 }

  abbrev in_level : Option Index → P.Key → Bool
  in_level none k = false
  in_level (some ri) k = P.in_index ri k

  abbrev pub in_levels : Levels Index → P.Key → Bool
  in_levels levels k =
      in_level levels.l0 k || in_level levels.l1 k || in_level levels.l2 k || in_level levels.l3 k

  in_level-merge_ptr :
      (a b : Option Index) (k : P.Key) → in_level (merge_ptr a b) k ≡ (in_level a k || in_level b k)
  unfolding merge_ptr
  in_level-merge_ptr none b k = refl
  in_level-merge_ptr (some a) none k = ground arith
  in_level-merge_ptr (some a) (some b) k = P.in_index-merge_two_indices a b k

  in_level-spill :
      (limit : ℕ) (a b : Option Index) (k : P.Key)
      → (in_level (spill limit a b).0 k || in_level (spill limit a b).1 k)
        ≡ (in_level a k || in_level b k)
  unfolding spill
  in_level-spill limit none b k = refl
  in_level-spill limit (some a) b k = ground (arith, in_level-merge_ptr (some a) b k)

  -- No key is lost or made up: after `mergeLevel` the levels hold what they held and what the index
  -- holds.
  pub in_levels-merge_level :
      (levels : Levels Index) (ri : Index) (k : P.Key)
      → in_levels (merge_level levels ri) k ≡ (in_levels levels k || P.in_index ri k)
  unfolding merge_level
  in_levels-merge_level levels ri k =
      let first = first_level levels.l0 ri in
      let below = spill level_limit_0 first levels.l1 in
      let below' = spill level_limit_1 below.1 levels.l2 in
      ground (
        arith,
        in_first levels.l0,
        in_level-spill level_limit_0 first levels.l1 k,
        in_level-spill level_limit_1 below.1 levels.l2 k,
        in_level-spill level_limit_2 below'.1 levels.l3 k,
      )
    where
      in_first :
          (l : Option Index) → in_level (first_level l ri) k ≡ (in_level l k || P.in_index ri k)
      in_first none = ground arith
      in_first (some l) = in_level-merge_ptr (some l) (some ri) k

  -- A level is absent or has fewer rows than its limit.
  abbrev pub IsBelow : ℕ → Option Index → Type 0
  IsBelow limit none = Unit
  IsBelow limit (some ri) = P.cardinality ri < limit

  spill-IsBelow : (limit : ℕ) (a b : Option Index) → IsBelow limit (spill limit a b).0
  unfolding spill
  spill-IsBelow limit none b = tt
  spill-IsBelow limit (some a) b = elim (Bool-cases (leb limit (P.cardinality a))) [
    | inl full ↦ rw full tt
    | inr room ↦ rw room (ground arith)
  ]

  -- After `mergeLevel` every level but the last is absent or has fewer rows than its limit, whatever
  -- the levels were before.
  pub merge_level-IsBelow :
      (levels : Levels Index) (ri : Index)
      → IsBelow level_limit_0 (merge_level levels ri).l0
        × IsBelow level_limit_1 (merge_level levels ri).l1
        × IsBelow level_limit_2 (merge_level levels ri).l2
  unfolding merge_level
  merge_level-IsBelow levels ri =
      let first = first_level levels.l0 ri in
      let below = spill level_limit_0 first levels.l1 in
      let below' = spill level_limit_1 below.1 levels.l2 in
      (
        spill-IsBelow level_limit_0 first levels.l1,
        spill-IsBelow level_limit_1 below.1 levels.l2,
        spill-IsBelow level_limit_2 below'.1 levels.l3,
      )
