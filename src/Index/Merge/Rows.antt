-- ===== src/Index/Merge/Rows.antt =====
-- The rows of two indexes in their merge: every row has a new one of its own, with its key.
use bitstar.Base.{
  ℕ, zero, suc, ◌+◌, ◌-◌, ◌%◌, ◌^◌, ◌≤◌, ◌<◌, ◌≡◌, refl, ap, Bool, true, false, List, [], ◌∷◌,
  Option, some, arith, length, any, ◌||◌, ◌≢◌, get_elem?, Bool-cases, inl, inr,
}
use native.Mathlib.Nat.{mod-eq_of_lt}
use bitstar.Keys.Defs.{EventKey}
use bitstar.Index.Merge.Defs.{take_a, append_a, append_b, merge_keys}

-- An interleaving of two lists of keys from a position on, with the rows of each.
pub data IsMerge
    : ℕ → List EventKey → List EventKey → List EventKey → List ℕ → List ℕ → Type 0 where
  both_end : (pos : ℕ) → IsMerge pos [] [] [] [] []
  from_a :
      (pos : ℕ) (x : EventKey) {keys xs ys : List EventKey} {ra rb : List ℕ}
      → IsMerge (suc pos) keys xs ys ra rb
      → IsMerge pos (x ∷ keys) (x ∷ xs) ys (pos ∷ ra) rb
  from_b :
      (pos : ℕ) (y : EventKey) {keys xs ys : List EventKey} {ra rb : List ℕ}
      → IsMerge (suc pos) keys xs ys ra rb
      → IsMerge pos (y ∷ keys) xs (y ∷ ys) ra (pos ∷ rb)

pub merge_keys-take_a :
    (f pos : ℕ) (x y : EventKey) (xs ys : List EventKey)
    → take_a x y ≡ true
    → merge_keys (suc f) pos (x ∷ xs) (y ∷ ys) ≡ append_a x pos (merge_keys f (suc pos) xs (y ∷ ys))
unfolding merge_keys
merge_keys-take_a f pos x y xs ys h = ground (arith, h)

pub merge_keys_take_b :
    (f pos : ℕ) (x y : EventKey) (xs ys : List EventKey)
    → take_a x y ≡ false
    → merge_keys (suc f) pos (x ∷ xs) (y ∷ ys) ≡ append_b y pos (merge_keys f (suc pos) (x ∷ xs) ys)
unfolding merge_keys
merge_keys_take_b f pos x y xs ys h = ground (arith, h)

pub merge_keys-IsMerge :
    (f pos : ℕ) (xs ys : List EventKey)
    → length xs + length ys ≤ f
    → pos + (length xs + length ys) ≤ 2 ^ 32
    → let m = merge_keys f pos xs ys in IsMerge pos m.keys xs ys m.remap_a m.remap_b
unfolding merge_keys
merge_keys-IsMerge zero pos [] [] enough fits = both_end pos
merge_keys-IsMerge zero pos (x ∷ xs) ys enough fits = absurd (omega arith)
merge_keys-IsMerge zero pos [] (y ∷ ys) enough fits = absurd (omega arith)
merge_keys-IsMerge (suc f) pos [] [] enough fits = both_end pos
merge_keys-IsMerge (suc f) pos (x ∷ xs) [] enough fits =
    let small : pos % 2 ^ 32 ≡ pos = mod-eq_of_lt (omega arith) in
    rw small (from_a pos x (merge_keys-IsMerge f (suc pos) xs [] (omega arith) (omega arith)))
merge_keys-IsMerge (suc f) pos [] (y ∷ ys) enough fits =
    let small : pos % 2 ^ 32 ≡ pos = mod-eq_of_lt (omega arith) in
    rw small (from_b pos y (merge_keys-IsMerge f (suc pos) [] ys (omega arith) (omega arith)))
merge_keys-IsMerge (suc f) pos (x ∷ xs) (y ∷ ys) enough fits =
    let small : pos % 2 ^ 32 ≡ pos = mod-eq_of_lt (omega arith) in
    elim (Bool-cases (take_a x y)) [
      | inl first ↦
          rw (merge_keys-take_a f pos x y xs ys first, small)
            (from_a pos x (merge_keys-IsMerge f (suc pos) xs (y ∷ ys) (omega arith) (omega arith)))
      | inr second ↦
          rw (merge_keys_take_b f pos x y xs ys second, small)
            (from_b pos y (merge_keys-IsMerge f (suc pos) (x ∷ xs) ys (omega arith) (omega arith)))
    ]

pub IsMerge-lengths :
    {pos : ℕ} {keys xs ys : List EventKey} {ra rb : List ℕ}
    → IsMerge pos keys xs ys ra rb
    → (length keys ≡ length xs + length ys) × (length ra ≡ length xs) × (length rb ≡ length ys)
IsMerge-lengths (both_end pos) = (refl, refl, refl)
IsMerge-lengths (from_a pos x m) = ground (arith, IsMerge-lengths m)
IsMerge-lengths (from_b pos y m) = ground (arith, IsMerge-lengths m)

any-IsMerge :
    (p : EventKey → Bool) {pos : ℕ} {keys xs ys : List EventKey} {ra rb : List ℕ}
    → IsMerge pos keys xs ys ra rb
    → any p keys ≡ (any p xs || any p ys)
any-IsMerge p (both_end pos) = refl
any-IsMerge p (from_a pos x m) = ground (arith, any-IsMerge p m)
any-IsMerge p (from_b pos y m) = ground (arith, any-IsMerge p m)

-- The new row of a row of `a`, and of `b`: it lies in the merge and has the key.
pub record IsRowOf (pos : ℕ) (keys : List EventKey) (r : ℕ) (key : Option EventKey) : Type 0 where
  pub from_pos : pos ≤ r
  pub inside : r < pos + length keys
  pub same_key : get_elem? keys (r - pos) ≡ key

IsRowOf-later :
    (pos : ℕ) (x : EventKey) (keys : List EventKey) (r : ℕ) (key : Option EventKey)
    → IsRowOf (suc pos) keys r key
    → IsRowOf pos (x ∷ keys) r key
IsRowOf-later pos x keys r key h =
    let behind : r - pos ≡ suc (r - suc pos) = omega (arith, h.from_pos) in
    record {
      from_pos = omega (arith, h.from_pos);
      inside = omega (arith, h.inside);
      same_key = rw behind h.same_key;
    }

IsRowOf-first :
    (pos : ℕ) (x : EventKey) (keys : List EventKey) (r : ℕ)
    → pos ≡ r
    → IsRowOf pos (x ∷ keys) r (some x)
IsRowOf-first pos x keys r e =
    let none_before : r - pos ≡ 0 = omega arith in
    record { from_pos = omega arith; inside = omega arith; same_key = rw none_before refl }

pub remap_a-IsRowOf :
    {pos : ℕ} {keys xs ys : List EventKey} {ra rb : List ℕ}
    → IsMerge pos keys xs ys ra rb
    → (i r : ℕ) → get_elem? ra i ≡ some r
    → IsRowOf pos keys r (get_elem? xs i)
remap_a-IsRowOf (both_end pos) i r e = absurd (ground arith)
remap_a-IsRowOf (from_a pos x {keys} m) zero r e = IsRowOf-first pos x keys r (ground arith)
remap_a-IsRowOf (from_a pos x {keys} {xs} m) (suc i) r e =
    IsRowOf-later pos x keys r (get_elem? xs i) (remap_a-IsRowOf m i r e)
remap_a-IsRowOf (from_b pos y {keys} {xs} m) i r e =
    IsRowOf-later pos y keys r (get_elem? xs i) (remap_a-IsRowOf m i r e)

-- The merge with the two lists exchanged.
pub IsMerge-swap :
    {pos : ℕ} {keys xs ys : List EventKey} {ra rb : List ℕ}
    → IsMerge pos keys xs ys ra rb
    → IsMerge pos keys ys xs rb ra
IsMerge-swap (both_end pos) = both_end pos
IsMerge-swap (from_a pos x m) = from_b pos x (IsMerge-swap m)
IsMerge-swap (from_b pos y m) = from_a pos y (IsMerge-swap m)

-- Two rows of one index have different new rows, and so have rows of the two indexes.
pub remap_a-injective :
    {pos : ℕ} {keys xs ys : List EventKey} {ra rb : List ℕ}
    → IsMerge pos keys xs ys ra rb
    → (i j r : ℕ) → get_elem? ra i ≡ some r
    → get_elem? ra j ≡ some r
    → i ≡ j
remap_a-injective (both_end pos) i j r e f = absurd (ground arith)
remap_a-injective (from_a pos x m) zero zero r e f = refl
remap_a-injective (from_a pos x m) zero (suc j) r e f =
    let later = (remap_a-IsRowOf m j r f).from_pos in absurd (ground arith)
remap_a-injective (from_a pos x m) (suc i) zero r e f =
    let later = (remap_a-IsRowOf m i r e).from_pos in absurd (ground arith)
remap_a-injective (from_a pos x m) (suc i) (suc j) r e f = ap suc (remap_a-injective m i j r e f)
remap_a-injective (from_b pos y m) i j r e f = remap_a-injective m i j r e f

pub remaps_disjoint :
    {pos : ℕ} {keys xs ys : List EventKey} {ra rb : List ℕ}
    → IsMerge pos keys xs ys ra rb
    → (i j r : ℕ) → get_elem? ra i ≡ some r
    → get_elem? rb j ≢ some r
remaps_disjoint (both_end pos) i j r e f = ground arith
remaps_disjoint (from_a pos x m) zero j r e f =
    let later = (remap_a-IsRowOf (IsMerge-swap m) j r f).from_pos in ground arith
remaps_disjoint (from_a pos x m) (suc i) j r e f = remaps_disjoint m i j r e f
remaps_disjoint (from_b pos y m) i zero r e f =
    let later = (remap_a-IsRowOf m i r e).from_pos in ground arith
remaps_disjoint (from_b pos y m) i (suc j) r e f = remaps_disjoint m i j r e f
