-- ===== src/Dense/Bits.antt =====
-- Bitmaps as lists of bits: a model of the bitmap operations on which concrete runs compute.
use bitstar.Roaring.{Ascending}
use bitstar.Base.{
  ℕ, zero, suc, ◌+◌, ◌≤◌, ◌<◌, ◌≡◌, refl, ap, ◌∙◌, Bool, true, false, not, ◌&&◌, ◌||◌, List, [],
  ◌∷◌, map, Option, none, some, arith, ltb, ◌==◌, any, elem, if◌then◌else◌,
}

abbrev pub Bits : Type 0
Bits = List Bool

unfoldable pub contains : Bits → ℕ → Bool
contains [] i = false
contains (b ∷ bs) zero = b
contains (b ∷ bs) (suc i) = contains bs i

unfoldable pub add : Bits → ℕ → Bits
add [] zero = true ∷ []
add [] (suc i) = false ∷ add [] i
add (b ∷ bs) zero = true ∷ bs
add (b ∷ bs) (suc i) = b ∷ add bs i

unfoldable pub remove : Bits → ℕ → Bits
remove [] i = []
remove (b ∷ bs) zero = false ∷ bs
remove (b ∷ bs) (suc i) = b ∷ remove bs i

-- The operation bit by bit; missing bits are clear.
unfoldable pub zip_bits : (Bool → Bool → Bool) → Bits → Bits → Bits
zip_bits f [] ys = map (f false) ys
zip_bits f (x ∷ xs) [] = f x false ∷ zip_bits f xs []
zip_bits f (x ∷ xs) (y ∷ ys) = f x y ∷ zip_bits f xs ys

unfoldable pub tabulate : ℕ → (ℕ → Bool) → Bits
tabulate zero p = []
tabulate (suc n) p = p 0 ∷ tabulate n (λ i. p (suc i))

unfoldable pub positions : ℕ → Bits → List ℕ
positions k [] = []
positions k (b ∷ bs) = let rest = positions (suc k) bs in if b then k ∷ rest else rest

unfoldable pub is_empty : Bits → Bool
is_empty [] = true
is_empty (b ∷ bs) = not b && is_empty bs

unfoldable pub union : List Bits → Bits
unfolding zip_bits
union [] = []
union (b ∷ bs) = zip_bits (λ x y. x || y) b (union bs)

unfoldable pub add_many : Bits → List ℕ → Bits
unfolding add
add_many b [] = b
add_many b (i ∷ ids) = add_many (add b i) ids

pub contains-add : (b : Bits) (i c : ℕ) → contains (add b i) c ≡ (c == i || contains b c)
unfolding contains add
contains-add [] zero zero = refl
contains-add [] zero (suc c) = ground arith
contains-add [] (suc i) zero = ground arith
contains-add [] (suc i) (suc c) = ground (arith, contains-add [] i c)
contains-add (b ∷ bs) zero zero = refl
contains-add (b ∷ bs) zero (suc c) = ground arith
contains-add (b ∷ bs) (suc i) zero = ground arith
contains-add (b ∷ bs) (suc i) (suc c) = ground (arith, contains-add bs i c)

pub contains-add_many :
    (b : Bits) (ids : List ℕ) (c : ℕ) → contains (add_many b ids) c ≡ (elem c ids || contains b c)
unfolding add_many
contains-add_many b [] c = refl
contains-add_many b (i ∷ ids) c =
    ground (arith, contains-add_many (add b i) ids c, contains-add b i c)

pub contains-remove :
    (b : Bits) (i c : ℕ) → contains (remove b i) c ≡ (not (c == i) && contains b c)
unfolding contains remove
contains-remove [] i c = ground arith
contains-remove (b ∷ bs) zero zero = refl
contains-remove (b ∷ bs) zero (suc c) = ground arith
contains-remove (b ∷ bs) (suc i) zero = ground arith
contains-remove (b ∷ bs) (suc i) (suc c) = ground (arith, contains-remove bs i c)

contains-map :
    (f : Bool → Bool) (xs : Bits) (c : ℕ)
    → f false ≡ false
    → contains (map f xs) c ≡ f (contains xs c)
unfolding contains
contains-map f [] c h = ground arith
contains-map f (x ∷ xs) zero h = refl
contains-map f (x ∷ xs) (suc c) h = contains-map f xs c h

pub contains-zip_bits :
    (f : Bool → Bool → Bool) (xs ys : Bits) (c : ℕ)
    → f false false ≡ false
    → contains (zip_bits f xs ys) c ≡ f (contains xs c) (contains ys c)
unfolding contains zip_bits
contains-zip_bits f [] ys c h = contains-map (f false) ys c h
contains-zip_bits f (x ∷ xs) [] zero h = refl
contains-zip_bits f (x ∷ xs) [] (suc c) h = contains-zip_bits f xs [] c h
contains-zip_bits f (x ∷ xs) (y ∷ ys) zero h = refl
contains-zip_bits f (x ∷ xs) (y ∷ ys) (suc c) h = contains-zip_bits f xs ys c h

pub contains-tabulate :
    (n : ℕ) (p : ℕ → Bool) (c : ℕ) → contains (tabulate n p) c ≡ (p c && ltb c n)
unfolding contains tabulate
contains-tabulate zero p c = ground arith
contains-tabulate (suc n) p zero = ground arith
contains-tabulate (suc n) p (suc c) = ground (arith, contains-tabulate n (λ i. p (suc i)) c)

pub contains-union : (bs : List Bits) (c : ℕ) → contains (union bs) c ≡ any (λ b. contains b c) bs
unfolding union
contains-union [] c = unfold contains in refl
contains-union (b ∷ bs) c =
    contains-zip_bits (λ x y. x || y) b (union bs) c refl
    ∙ ap (λ t. contains b c || t) (contains-union bs c)

pub contains_of_empty : (b : Bits) (c : ℕ) → is_empty b ≡ true → contains b c ≡ false
unfolding contains is_empty
contains_of_empty [] c h = refl
contains_of_empty (b ∷ bs) zero h = ground arith
contains_of_empty (b ∷ bs) (suc c) h = ground (arith, contains_of_empty bs c)

pub empty_of_contains : (b : Bits) → ((c : ℕ) → contains b c ≡ false) → is_empty b ≡ true
unfolding contains is_empty
empty_of_contains [] h = refl
empty_of_contains (b ∷ bs) h = ground (arith, h 0, empty_of_contains bs (λ c. h (suc c)))

elem-positions_below : (k : ℕ) (b : Bits) (c : ℕ) → c < k → elem c (positions k b) ≡ false
unfolding positions
elem-positions_below k [] c h = refl
elem-positions_below k (true ∷ bs) c h = ground (arith, elem-positions_below (suc k) bs c)
elem-positions_below k (false ∷ bs) c h = elem-positions_below (suc k) bs c (omega arith)

-- The positions from `k` on are those of the set bits.
elem-positions : (k i : ℕ) (b : Bits) (c : ℕ) → c ≡ k + i → elem c (positions k b) ≡ contains b i
unfolding contains positions
elem-positions k i [] c e = refl
elem-positions k zero (true ∷ bs) c e = ground arith
elem-positions k zero (false ∷ bs) c e = elem-positions_below (suc k) bs c (omega arith)
elem-positions k (suc i) (true ∷ bs) c e = ground (arith, elem-positions (suc k) i bs c)
elem-positions k (suc i) (false ∷ bs) c e = elem-positions (suc k) i bs c (omega arith)

pub elem-to_array : (b : Bits) (c : ℕ) → elem c (positions 0 b) ≡ contains b c
elem-to_array b c = elem-positions 0 c b c (omega arith)

-- The list is ascending and starts at `k` or above.
abbrev From : ℕ → List ℕ → Type 0
From k [] = Unit
From k (x ∷ xs) = (k ≤ x) × From (suc x) xs

From-weaken : (j k : ℕ) (xs : List ℕ) → j ≤ k → From k xs → From j xs
From-weaken j k [] h f = tt
From-weaken j k (x ∷ xs) h f = (omega arith, f.1)

positions-From : (k : ℕ) (b : Bits) → From k (positions k b)
unfolding positions
positions-From k [] = tt
positions-From k (true ∷ bs) = (omega arith, positions-From (suc k) bs)
positions-From k (false ∷ bs) =
    From-weaken k (suc k) (positions (suc k) bs) (omega arith) (positions-From (suc k) bs)

From-Ascending : (k : ℕ) (xs : List ℕ) → From k xs → Ascending xs
From-Ascending k [] f = tt
From-Ascending k (x ∷ []) f = tt
From-Ascending k (x ∷ y ∷ xs) f = (f.1.0, From-Ascending (suc x) (y ∷ xs) f.1)

pub positions-Ascending : (b : Bits) → Ascending (positions 0 b)
positions-Ascending b = From-Ascending 0 (positions 0 b) (positions-From 0 b)

-- A byte for each bit behind a header byte.
unfoldable pub to_bytes : Bits → List ℕ
to_bytes bs = 7 ∷ map (λ b. if b then 1 else 0) bs

unfoldable pub of_bytes : List ℕ → Option Bits
of_bytes [] = none
of_bytes (h ∷ ds) = if h == 7 then some (map (λ d. d == 1) ds) else none

map-round : (bs : Bits) → map (λ d. d == 1) (map (λ b. if b then 1 else 0) bs) ≡ bs
map-round [] = refl
map-round (true ∷ bs) = ap (λ t. true ∷ t) (map-round bs)
map-round (false ∷ bs) = ap (λ t. false ∷ t) (map-round bs)

pub of_bytes-to_bytes : (b : Bits) → of_bytes (to_bytes b) ≡ some b
unfolding to_bytes of_bytes
of_bytes-to_bytes b = ap some (map-round b)
