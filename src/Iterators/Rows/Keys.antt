-- ===== src/Iterators/Rows/Keys.antt =====
-- The keys that are listed: those that are old enough, without repeats.
use bitstar.Base.{
  ℕ, ◌≡◌, inl, inr, Bytes, true, false, List, [], ◌∷◌, Option, none, some, leb, if◌then◌else◌,
  get_elem?, same_bytes, arith, Bool-cases,
}
use bitstar.Roaring.{Roaring}
use bitstar.Keys.Defs.{EventKey}
use bitstar.Iterators.Rows.Defs.{IndexIterator, is_passed}

-- The keys of the rows, where all rows have keys.
abbrev pub keys_at : List EventKey → List ℕ → Option (List EventKey)
keys_at keys [] = some []
keys_at keys (r ∷ rs) = elim (get_elem? keys r) [
  | none ↦ none
  | some k ↦ elim (keys_at keys rs) [ none ↦ none | some ks ↦ some (k ∷ ks) ]
]

-- The keys with a timestamp at most `ts`.
abbrev pub visible_at : ℕ → List EventKey → List EventKey
visible_at ts [] = []
visible_at ts (k ∷ ks) = if leb k.timestamp ts then k ∷ visible_at ts ks else visible_at ts ks

-- Of keys in a row with the same id the first.
abbrev pub first_of_each : Option Bytes → List EventKey → List EventKey
first_of_each last [] = []
first_of_each none (k ∷ ks) = k ∷ first_of_each (some k.id) ks
first_of_each (some id) (k ∷ ks) =
    if same_bytes id k.id then first_of_each (some id) ks else k ∷ first_of_each (some k.id) ks

module _ (R : Roaring) where
  open R use {Bitmap}

  abbrev pub last_id : IndexIterator R → Option Bytes
  last_id ii = if ii.has_emitted then some ii.last_emitted_id else none

  pub first_of_each-passed :
      (ii : IndexIterator R) (k : EventKey) (ks : List EventKey)
      → is_passed R ii k ≡ true
      → first_of_each (last_id ii) (visible_at ii.ts (k ∷ ks))
        ≡ first_of_each (last_id ii) (visible_at ii.ts ks)
  unfolding is_passed
  first_of_each-passed ii k ks h = elim (Bool-cases ii.has_emitted) [
    | inl emitted ↦ rw emitted (ground arith)
    | inr fresh ↦ rw fresh (ground arith)
  ]

  pub first_of_each-taken :
      (ii : IndexIterator R) (k : EventKey) (ks : List EventKey)
      → is_passed R ii k ≡ false
      → first_of_each (last_id ii) (visible_at ii.ts (k ∷ ks))
        ≡ k ∷ first_of_each (some k.id) (visible_at ii.ts ks)
  unfolding is_passed
  first_of_each-taken ii k ks h = elim (Bool-cases ii.has_emitted) [
    | inl emitted ↦ rw emitted (ground arith)
    | inr fresh ↦ rw fresh (ground arith)
  ]
