-- ===== src/Dense.antt =====
-- Lists of bits satisfy every law of the bitmap interface, and runs on them compute.
pub mod Bits
use bitstar.Base.{
  refl, [], zero, suc, false, ◌<◌, ◌||◌, ◌&&◌, not, differ, length, some, ltb, leb, ℕ, ◌≡◌, ◌∙◌, ap,
  List, arith, any,
}
use bitstar.Roaring.{Roaring}
use Bits.{
  add_many, contains-add_many, zip_bits, tabulate, positions, contains, union, to_bytes,
  contains-zip_bits, contains-tabulate, contains-union, contains-add, contains-remove,
  contains_of_empty, empty_of_contains, elem-to_array, positions-Ascending, of_bytes-to_bytes,
  of_bytes,
}

pub contains-nil : (c : ℕ) → contains [] c ≡ false
contains-nil zero = unfold contains in refl
contains-nil (suc c) = unfold contains in refl

pub contains-add_range :
    (b : Bits.Bits) (lo hi c : ℕ)
    → contains (zip_bits (λ x y. x || y) (tabulate hi (leb lo)) b) c
      ≡ (leb lo c && ltb c hi || contains b c)
contains-add_range b lo hi c =
    contains-zip_bits (λ x y. x || y) (tabulate hi (leb lo)) b c refl
    ∙ ap (λ t. t || contains b c) (contains-tabulate hi (leb lo) c)

pub unmarshal-marshal :
    (b : Bits.Bits) (d : List ℕ)
    → some (to_bytes b) ≡ some d
    → (b' : Bits.Bits) × (of_bytes d ≡ some b')
      × ((c : ℕ) → contains b' c ≡ contains b c)
      × (0 < length d)
unmarshal-marshal b d e =
    let same_bytes : to_bytes b ≡ d = cc in
    (
      b,
      rw (← same_bytes) (of_bytes-to_bytes b),
      λ c. refl,
      rw (← same_bytes) (unfold to_bytes in omega arith),
    )

abbrev pub dense : Roaring
dense = record {
  Bitmap = Bits.Bits;
  contains = Bits.contains;
  new = [];
  add = Bits.add;
  remove = Bits.remove;
  add_many = add_many;
  add_range = λ b lo hi. zip_bits (λ x y. x || y) (tabulate hi (leb lo)) b;
  or = zip_bits (λ x y. x || y);
  and = zip_bits (λ x y. x && y);
  and_not = zip_bits (λ x y. x && not y);
  xor = zip_bits differ;
  par_or = union;
  is_empty = Bits.is_empty;
  cardinality = λ b. length (positions 0 b);
  and_cardinality = λ a b. length (positions 0 (zip_bits (λ x y. x && y) a b));
  to_array = positions 0;
  run_optimize = λ b. b;
  marshal_binary = λ b. some (to_bytes b);
  unmarshal_binary = of_bytes;
  contains-new = contains-nil;
  contains-add = contains-add;
  contains-remove = contains-remove;
  contains-add_many = contains-add_many;
  contains-add_range = contains-add_range;
  contains-or = λ a b c. contains-zip_bits (λ x y. x || y) a b c refl;
  contains-and = λ a b c. contains-zip_bits (λ x y. x && y) a b c refl;
  contains-and_not = λ a b c. contains-zip_bits (λ x y. x && not y) a b c refl;
  contains-xor = λ a b c. contains-zip_bits differ a b c refl;
  contains-par_or = contains-union;
  contains_of_empty = contains_of_empty;
  empty_of_contains = empty_of_contains;
  elem-to_array = elem-to_array;
  to_array-Ascending = positions-Ascending;
  cardinality-to_array = λ b. refl;
  and_cardinality-and = λ a b. refl;
  contains-run_optimize = λ b c. refl;
  unmarshal-marshal = unmarshal-marshal;
}
