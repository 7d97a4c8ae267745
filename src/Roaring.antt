-- ===== src/Roaring.antt =====
-- `github.com/RoaringBitmap/roaring/v2`, which the program calls: a bitmap of 32-bit numbers, as
-- an interface of the calls that the program makes and of what their documentation says of them.
-- Values stand for bitmaps, so an in-place call returns the new bitmap, and `Clone` is no call.
mod Order
pub use Order.*
use bitstar.Base.{
  ℕ, ◌<◌, ◌≡◌, Bool, true, false, not, ◌&&◌, ◌||◌, List, [], ◌∷◌, Option, some, leb, ltb, ◌==◌, any,
  elem, length, differ,
}

pub record Roaring : Type 1 where
  pub Bitmap : Type 0
  pub contains : Bitmap → ℕ → Bool
  pub new : Bitmap
  pub add : Bitmap → ℕ → Bitmap
  pub remove : Bitmap → ℕ → Bitmap
  -- `b.AddMany(ids)`.
  pub add_many : Bitmap → List ℕ → Bitmap
  -- `b.AddRange(lo, hi)`, which adds the numbers from `lo` up to `hi - 1`.
  pub add_range : Bitmap → ℕ → ℕ → Bitmap
  pub or : Bitmap → Bitmap → Bitmap
  pub and : Bitmap → Bitmap → Bitmap
  pub and_not : Bitmap → Bitmap → Bitmap
  pub xor : Bitmap → Bitmap → Bitmap
  pub par_or : List Bitmap → Bitmap
  pub is_empty : Bitmap → Bool
  pub cardinality : Bitmap → ℕ
  pub and_cardinality : Bitmap → Bitmap → ℕ
  -- The numbers in the order in which `Iterator` and `ManyIterator` give them.
  pub to_array : Bitmap → List ℕ
  pub run_optimize : Bitmap → Bitmap
  pub marshal_binary : Bitmap → Option (List ℕ)
  pub unmarshal_binary : List ℕ → Option Bitmap
  pub contains-new : (c : ℕ) → contains new c ≡ false
  pub contains-add : (b : Bitmap) (i c : ℕ) → contains (add b i) c ≡ (c == i || contains b c)
  pub contains-remove :
      (b : Bitmap) (i c : ℕ) → contains (remove b i) c ≡ (not (c == i) && contains b c)
  pub contains-add_many :
      (b : Bitmap) (ids : List ℕ) (c : ℕ)
      → contains (add_many b ids) c ≡ (elem c ids || contains b c)
  pub contains-add_range :
      (b : Bitmap) (lo hi c : ℕ)
      → contains (add_range b lo hi) c ≡ (leb lo c && ltb c hi || contains b c)
  pub contains-or : (a b : Bitmap) (c : ℕ) → contains (or a b) c ≡ (contains a c || contains b c)
  pub contains-and : (a b : Bitmap) (c : ℕ) → contains (and a b) c ≡ (contains a c && contains b c)
  pub contains-and_not :
      (a b : Bitmap) (c : ℕ) → contains (and_not a b) c ≡ (contains a c && not (contains b c))
  pub contains-xor :
      (a b : Bitmap) (c : ℕ) → contains (xor a b) c ≡ differ (contains a c) (contains b c)
  pub contains-par_or :
      (bs : List Bitmap) (c : ℕ) → contains (par_or bs) c ≡ any (λ b. contains b c) bs
  pub contains_of_empty : (b : Bitmap) (c : ℕ) → is_empty b ≡ true → contains b c ≡ false
  pub empty_of_contains : (b : Bitmap) → ((c : ℕ) → contains b c ≡ false) → is_empty b ≡ true
  pub elem-to_array : (b : Bitmap) (c : ℕ) → elem c (to_array b) ≡ contains b c
  pub to_array-Ascending : (b : Bitmap) → Ascending (to_array b)
  pub cardinality-to_array : (b : Bitmap) → cardinality b ≡ length (to_array b)
  pub and_cardinality-and : (a b : Bitmap) → and_cardinality a b ≡ cardinality (and a b)
  pub contains-run_optimize : (b : Bitmap) (c : ℕ) → contains (run_optimize b) c ≡ contains b c
  -- Decoding what was encoded gives the same set, and no encoding is empty.
  pub unmarshal-marshal :
      (b : Bitmap) (d : List ℕ)
      → marshal_binary b ≡ some d
      → (b' : Bitmap) × (unmarshal_binary d ≡ some b')
        × ((c : ℕ) → contains b' c ≡ contains b c)
        × (0 < length d)
