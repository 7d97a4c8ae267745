-- ===== src/Index/Merge/Move.antt =====
-- `moveBitmap` and the loops that call it: a bitmap of old rows becomes one of new rows.
use bitstar.Base.{
  ℕ, ◌<◌, ◌≡◌, ◌≢◌, refl, sym, ap, ◌∙◌, Bool, true, false, ◌||◌, List, [], ◌∷◌, none, some, arith,
  length, get_elem?, get_elem?-lt, elem, any, ltb, ◌==◌, Bool-cases, Option-cases, inl, inr,
}
use bitstar.Roaring.{Roaring}
use bitstar.Index.Merge.Defs.{move_each, remap_each, move_bitmap}

-- Does the old row go to the new one?
abbrev pub lands : List ℕ → ℕ → ℕ → Bool
lands remap c id = elim (get_elem? remap id) [ none ↦ false | some r ↦ c == r ]

-- No other old row goes where this one goes.
abbrev pub IsOwn : List ℕ → ℕ → ℕ → Type 0
IsOwn remap i r = (get_elem? remap i ≡ some r) × ((j : ℕ) → get_elem? remap j ≡ some r → i ≡ j)

-- No row goes to this one.
abbrev pub IsFree : List ℕ → ℕ → Type 0
IsFree remap r = (j : ℕ) → get_elem? remap j ≢ some r

lands-IsOwn : (remap : List ℕ) (i r id : ℕ) → IsOwn remap i r → lands remap r id ≡ (i == id)
lands-IsOwn remap i r id own = elim (Option-cases (get_elem? remap id)) [
  | inl missing ↦ ground (arith, own.0)
  | inr (q, there) ↦ let other = own.1 id in ground (arith, own.0)
]

any-lands_own :
    (remap : List ℕ) (i r : ℕ) (ids : List ℕ)
    → IsOwn remap i r
    → any (lands remap r) ids ≡ elem i ids
any-lands_own remap i r [] own = refl
any-lands_own remap i r (id ∷ ids) own =
    ground (arith, lands-IsOwn remap i r id own, any-lands_own remap i r ids own)

any-lands_none :
    (remap : List ℕ) (r : ℕ) (ids : List ℕ) → IsFree remap r → any (lands remap r) ids ≡ false
any-lands_none remap r [] free = refl
any-lands_none remap r (id ∷ ids) free = elim (Option-cases (get_elem? remap id)) [
  | inl missing ↦ ground (arith, any-lands_none remap r ids free)
  | inr (q, there) ↦
      let not_here = free id in
      ground (arith, any-lands_none remap r ids free, ap (λ (x : ℕ). some x))
]

module _ (R : Roaring) where
  open R use {Bitmap}

  -- All rows of the list have new ones.
  abbrev AllRemapped : List ℕ → List ℕ → Type 0
  AllRemapped remap [] = Unit
  AllRemapped remap (id ∷ ids) = (id < length remap) × AllRemapped remap ids

  all_remapped :
      (remap ids : List ℕ)
      → ((c : ℕ) → elem c ids ≡ true → c < length remap)
      → AllRemapped remap ids
  all_remapped remap [] h = tt
  all_remapped remap (id ∷ ids) h =
      (h id (ground arith), all_remapped remap ids (λ c e. h c (ground arith)))

  move_each-lands :
      (ids remap : List ℕ) (dst : Bitmap)
      → AllRemapped remap ids
      → (r : Bitmap) × (move_each R ids remap dst ≡ some r)
        × ((c : ℕ) → R.contains r c ≡ (any (lands remap c) ids || R.contains dst c))
  unfolding move_each
  move_each-lands [] remap dst h = (dst, refl, λ c. refl)
  move_each-lands (id ∷ ids) remap dst h =
      let (q, there) = get_elem?-lt remap id (omega (arith, h.0)) in
      let (r, runs, holds) = move_each-lands ids remap (R.add dst q) h.1 in
      (r, ground (arith, there, runs), λ c. ground (arith, holds c, there, R.contains-add dst q c))

  remap_each-lands :
      (ids remap : List ℕ)
      → AllRemapped remap ids
      → (buf : List ℕ) × (remap_each R ids remap ≡ some buf)
        × ((c : ℕ) → elem c buf ≡ any (lands remap c) ids)
  unfolding remap_each
  remap_each-lands [] remap h = ([], refl, λ c. refl)
  remap_each-lands (id ∷ ids) remap h =
      let (q, there) = get_elem?-lt remap id (omega (arith, h.0)) in
      let (buf, runs, holds) = remap_each-lands ids remap h.1 in
      (q ∷ buf, ground (arith, there, runs), λ c. ground (arith, holds c, there))

  nothing_lands : (remap ids : List ℕ) (c : ℕ) → length ids ≡ 0 → any (lands remap c) ids ≡ false
  nothing_lands remap [] c h = refl
  nothing_lands remap (id ∷ ids) c h = absurd (omega arith)

  -- `moveBitmap` returns when every row of the bitmap has a new one, and adds the new rows, however
  -- many there are: with no row, with fewer than 32, and with more.
  pub move_bitmap-lands :
      (src dst : Bitmap) (remap : List ℕ)
      → ((c : ℕ) → R.contains src c ≡ true → c < length remap)
      → (r : Bitmap) × (move_bitmap R src remap dst ≡ some r)
        × ((c : ℕ) → R.contains r c ≡ (any (lands remap c) (R.to_array src) || R.contains dst c))
  unfolding move_bitmap
  move_bitmap-lands src dst remap inside =
      let all =
        all_remapped remap (R.to_array src) (λ c e. inside c (sym (R.elem-to_array src c) ∙ e)) in
      let size = R.cardinality-to_array src in
      elim (Bool-cases (R.cardinality src == 0)) [
        | inl empty ↦ (
          dst,
          ground arith,
          λ c. ground (arith, nothing_lands remap (R.to_array src) c (ground arith)),
        )
        | inr filled ↦ elim (Bool-cases (ltb (R.cardinality src) 32)) [
          | inl few ↦
              let (r, runs, holds) = move_each-lands (R.to_array src) remap dst all in
              (r, ground (arith, runs), holds)
          | inr many ↦
              let (buf, runs, holds) = remap_each-lands (R.to_array src) remap all in
              (
                R.add_many dst buf,
                ground (arith, runs),
                λ c. ground (arith, R.contains-add_many dst buf c, holds c),
              )
        ]
      ]

  -- The rows of a moved bitmap: the new row of a row of the source is there if the row was, and a
  -- row that no row goes to is there if the target had it.
  pub moved_own :
      (src : Bitmap) (remap : List ℕ) (i r : ℕ)
      → IsOwn remap i r
      → any (lands remap r) (R.to_array src) ≡ R.contains src i
  moved_own src remap i r own = any-lands_own remap i r (R.to_array src) own ∙ R.elem-to_array src i

  pub moved_free :
      (src : Bitmap) (remap : List ℕ) (r : ℕ)
      → IsFree remap r
      → any (lands remap r) (R.to_array src) ≡ false
  moved_free src remap r free = any-lands_none remap r (R.to_array src) free
