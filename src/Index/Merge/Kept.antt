-- ===== src/Index/Merge/Kept.antt =====
-- `mergeTwoIndices` keeps the rows of an index bounded, so its result can be merged again.
use bitstar.Base.{
  ℕ, zero, suc, ◌+◌, ◌^◌, ◌≤◌, ◌<◌, ◌≡◌, refl, Bool, true, false, ◌||◌, List, [], ◌∷◌, some, arith,
  length, any, get_elem?, get_elem?-lt, Bool-cases, Option-cases, inl, inr, lookup_by, insert_by,
  entry_or, ltb, if◌then◌else◌, replicate, same_bytes, ◌==◌,
}
use native.Mathlib.Nat.{mod-le}
use bitstar.Roaring.{Roaring}
use bitstar.Keys.Defs.{EventKey, same_key}
use bitstar.Bsi.Defs.{Bsi, new_bsi, init_bitmaps}
use bitstar.Index.Defs.{RoaringIndex, same_pair}
use bitstar.Index.Merge.Defs.{
  MergedKeys, append_a, append_b, take_a, merge_keys, move_bitmap, move_map, move_slices,
  move_indexes, merge_bsi, merge_maps, merge_indexes, merge_two_indices, max_signed, min_signed,
}
use bitstar.Index.Merge.Rows.{merge_keys-take_a, merge_keys_take_b}
use bitstar.Index.Merge.Move.{lands, move_bitmap-lands}
use bitstar.Index.Merge.Maps.{IsShort, AllShort}
use bitstar.Index.Merge.Carried.{AllRows, merge_parts-eq}

abbrev AllBelow : ℕ → List ℕ → Type 0
AllBelow n [] = Unit
AllBelow n (r ∷ rs) = (r < n) × AllBelow n rs

AllBelow-get_elem? :
    (n : ℕ) (rs : List ℕ) (i r : ℕ) → AllBelow n rs → get_elem? rs i ≡ some r → r < n
AllBelow-get_elem? n [] i r h e = absurd (ground arith)
AllBelow-get_elem? n (q ∷ rs) zero r h e = ground (arith, h.0)
AllBelow-get_elem? n (q ∷ rs) (suc i) r h e = AllBelow-get_elem? n rs i r h.1 e

-- The merged keys have the keys of both lists, and a new row for each, however many there are.
record IsSized (pos : ℕ) (xs ys : List EventKey) (m : MergedKeys) : Type 0 where
  size_a : length m.remap_a ≡ length xs
  size_b : length m.remap_b ≡ length ys
  below_a : AllBelow (pos + length m.keys) m.remap_a
  below_b : AllBelow (pos + length m.keys) m.remap_b
  same_keys : (p : EventKey → Bool) → any p m.keys ≡ (any p xs || any p ys)

append_a-IsSized :
    (pos : ℕ) (x : EventKey) (xs ys : List EventKey) (m : MergedKeys)
    → IsSized (suc pos) xs ys m
    → IsSized pos (x ∷ xs) ys (append_a x pos m)
append_a-IsSized pos x xs ys m h =
    let e : suc pos + length m.keys ≡ pos + suc (length m.keys) = omega arith in
    let small = mod-le pos (2 ^ 32) in
    record {
      size_a = ground (arith, h.size_a);
      size_b = h.size_b;
      below_a = (ground (arith, small), rw e at h.below_a);
      below_b = rw e at h.below_b;
      same_keys = λ p. ground (arith, h.same_keys p);
    }

append_b-IsSized :
    (pos : ℕ) (y : EventKey) (xs ys : List EventKey) (m : MergedKeys)
    → IsSized (suc pos) xs ys m
    → IsSized pos xs (y ∷ ys) (append_b y pos m)
append_b-IsSized pos y xs ys m h =
    let e : suc pos + length m.keys ≡ pos + suc (length m.keys) = omega arith in
    let small = mod-le pos (2 ^ 32) in
    record {
      size_a = h.size_a;
      size_b = ground (arith, h.size_b);
      below_a = rw e at h.below_a;
      below_b = (ground (arith, small), rw e at h.below_b);
      same_keys = λ p. ground (arith, h.same_keys p);
    }

merge_keys-IsSized :
    (f pos : ℕ) (xs ys : List EventKey)
    → length xs + length ys ≤ f
    → IsSized pos xs ys (merge_keys f pos xs ys)
unfolding merge_keys
merge_keys-IsSized zero pos [] [] enough = record {
  size_a = refl;
  size_b = refl;
  below_a = tt;
  below_b = tt;
  same_keys = λ p. refl;
}
merge_keys-IsSized zero pos (x ∷ xs) ys enough = absurd (omega arith)
merge_keys-IsSized zero pos [] (y ∷ ys) enough = absurd (omega arith)
merge_keys-IsSized (suc f) pos [] [] enough = record {
  size_a = refl;
  size_b = refl;
  below_a = tt;
  below_b = tt;
  same_keys = λ p. refl;
}
merge_keys-IsSized (suc f) pos (x ∷ xs) [] enough =
    append_a-IsSized pos x xs [] _ (merge_keys-IsSized f (suc pos) xs [] (omega arith))
merge_keys-IsSized (suc f) pos [] (y ∷ ys) enough =
    append_b-IsSized pos y [] ys _ (merge_keys-IsSized f (suc pos) [] ys (omega arith))
merge_keys-IsSized (suc f) pos (x ∷ xs) (y ∷ ys) enough = elim (Bool-cases (take_a x y)) [
  | inl first ↦ rw (merge_keys-take_a f pos x y xs ys first) (
      append_a-IsSized pos x xs (y ∷ ys) _
        (merge_keys-IsSized f (suc pos) xs (y ∷ ys) (omega arith)))
  | inr second ↦ rw (merge_keys_take_b f pos x y xs ys second) (
      append_b-IsSized pos y (x ∷ xs) ys _
        (merge_keys-IsSized f (suc pos) (x ∷ xs) ys (omega arith)))
]

AllBelow-shift : (n n' : ℕ) (rs : List ℕ) → n ≡ n' → AllBelow n rs → AllBelow n' rs
AllBelow-shift n n' rs e h = rw e at h

any-lands_lt :
    (n : ℕ) (remap : List ℕ) (c : ℕ) (ids : List ℕ)
    → AllBelow n remap
    → any (lands remap c) ids ≡ true
    → c < n
any-lands_lt n remap c [] below h = absurd (ground arith)
any-lands_lt n remap c (id ∷ ids) below h = elim (Option-cases (get_elem? remap id)) [
  | inl missing ↦ any-lands_lt n remap c ids below (ground arith)
  | inr (q, there) ↦ elim (Bool-cases (c == q)) [
    | inl here ↦
        let q_below = AllBelow-get_elem? n remap id q below there in ground (arith, q_below)
    | inr other ↦ any-lands_lt n remap c ids below (ground arith)
  ]
]

module _ (R : Roaring) where
  open R use {Bitmap}

  move_bitmap-IsShort :
      (n : ℕ) (src dst : Bitmap) (remap : List ℕ)
      → IsShort R (length remap) src
      → AllBelow n remap
      → IsShort R n dst
      → (r : Bitmap) × (move_bitmap R src remap dst ≡ some r) × IsShort R n r
  move_bitmap-IsShort n src dst remap inside below short =
      let (r, runs, holds) = move_bitmap-lands R src dst remap inside in
      (
        r,
        runs,
        λ c h. elim (Bool-cases (any (lands remap c) (R.to_array src))) [
          | inl landed ↦ any-lands_lt n remap c (R.to_array src) below landed
          | inr no_new ↦ short c (ground (arith, holds c))
        ],
      )

  -- No bitmap of the map has a row from `n` on.
  abbrev pub MapShort {ℓ} : {K : Type ℓ} → ℕ → List (K × Bitmap) → Type 0
  MapShort n [] = Unit
  MapShort n ((k, rb) ∷ m) = IsShort R n rb × MapShort n m

  pub new-IsShort : (n : ℕ) → IsShort R n R.new
  new-IsShort n c h = absurd (ground (arith, R.contains-new c))

  pub entry_or-IsShort {ℓ} :
      {K : Type ℓ} (same : K → K → Bool) (n : ℕ) (k : K) (m : List (K × Bitmap))
      → MapShort n m
      → IsShort R n (entry_or same R.new k m)
  unfolding lookup_by
  entry_or-IsShort same n k [] h = new-IsShort n
  entry_or-IsShort same n k ((j, rb) ∷ m) h = elim (Bool-cases (same j k)) [
    | inl here ↦ let found : entry_or same R.new k ((j, rb) ∷ m) ≡ rb = ground arith in rw found h.0
    | inr other ↦
        let later : entry_or same R.new k ((j, rb) ∷ m) ≡ entry_or same R.new k m = ground arith in
        rw later (entry_or-IsShort same n k m h.1)
  ]

  pub insert_by-MapShort {ℓ} :
      {K : Type ℓ} (same : K → K → Bool) (n : ℕ) (k : K) (rb : Bitmap) (m : List (K × Bitmap))
      → IsShort R n rb
      → MapShort n m
      → MapShort n (insert_by same k rb m)
  unfolding insert_by
  insert_by-MapShort same n k rb [] short h = (short, tt)
  insert_by-MapShort same n k rb ((j, old) ∷ m) short h = elim (Bool-cases (same j k)) [
    | inl here ↦ rw here (short, h.1)
    | inr other ↦ rw other (h.0, insert_by-MapShort same n k rb m short h.1)
  ]

  move_map-MapShort {ℓ} :
      {K : Type ℓ} (same : K → K → Bool) (n : ℕ)
      → (m : List (K × Bitmap)) (remap : List ℕ) (out : List (K × Bitmap))
      → MapShort (length remap) m
      → AllBelow n remap
      → MapShort n out
      → (result : List (K × Bitmap)) × (move_map R same m remap out ≡ some result)
        × MapShort n result
  unfolding move_map
  move_map-MapShort same n [] remap out rows below short = (out, refl, short)
  move_map-MapShort same n ((k, rb) ∷ m) remap out rows below short =
      let (moved, runs, kept) =
        move_bitmap-IsShort n rb (entry_or same R.new k out) remap rows.0 below
          (entry_or-IsShort same n k out short) in
      let (result, runs', kept') =
        move_map-MapShort same n m remap (insert_by same k moved out) rows.1 below
          (insert_by-MapShort same n k moved out kept short) in
      (result, ground (arith, runs, runs'), kept')

  merge_maps-MapShort {ℓ} :
      {K : Type ℓ} (same : K → K → Bool) (n : ℕ)
      → (a b : List (K × Bitmap)) (remap_a remap_b : List ℕ) → MapShort (length remap_a) a
      → MapShort (length remap_b) b
      → AllBelow n remap_a
      → AllBelow n remap_b
      → (out : List (K × Bitmap)) × (merge_maps R same a b remap_a remap_b ≡ some out)
        × MapShort n out
  unfolding merge_maps
  merge_maps-MapShort same n a b remap_a remap_b rows_a rows_b below_a below_b =
      let (with_a, runs, short) = move_map-MapShort same n a remap_a [] rows_a below_a tt in
      let (out, runs', short') = move_map-MapShort same n b remap_b with_a rows_b below_b short in
      (out, ground (arith, runs, runs'), short')

  pub insert_by-AllRows :
      (n : ℕ) (k : EventKey) (r : ℕ) (m : List (EventKey × ℕ))
      → r < n
      → AllRows R n m
      → AllRows R n (insert_by same_key k r m)
  unfolding insert_by
  insert_by-AllRows n k r [] inside h = (inside, tt)
  insert_by-AllRows n k r ((j, old) ∷ m) inside h = elim (Bool-cases (same_key j k)) [
    | inl here ↦ rw here (inside, h.1)
    | inr other ↦ rw other (h.0, insert_by-AllRows n k r m inside h.1)
  ]

  move_indexes-AllRows :
      (n : ℕ) (m : List (EventKey × ℕ)) (remap : List ℕ) (out : List (EventKey × ℕ))
      → AllRows R (length remap) m
      → AllBelow n remap
      → AllRows R n out
      → (result : List (EventKey × ℕ)) × (move_indexes R m remap out ≡ some result)
        × AllRows R n result
  unfolding move_indexes
  move_indexes-AllRows n [] remap out rows below kept = (out, refl, kept)
  move_indexes-AllRows n ((k, old) ∷ m) remap out rows below kept =
      let (r, there) = get_elem?-lt remap old (omega (arith, rows.0)) in
      let (result, runs, kept') =
        move_indexes-AllRows n m remap (insert_by same_key k r out) rows.1 below
          (insert_by-AllRows n k r out (AllBelow-get_elem? n remap old r below there) kept) in
      (result, ground (arith, there, runs), kept')

  move_slices-AllShort :
      (n : ℕ) (ss ds : List Bitmap) (remap : List ℕ)
      → AllShort R (length remap) ss
      → AllBelow n remap
      → AllShort R n ds
      → (out : List Bitmap) × (move_slices R ss remap ds ≡ some out) × AllShort R n out
  unfolding move_slices
  move_slices-AllShort n [] ds remap rows below short = (ds, refl, short)
  move_slices-AllShort n (s ∷ ss) [] remap rows below short = ([], refl, tt)
  move_slices-AllShort n (s ∷ ss) (d ∷ ds) remap rows below short =
      let (moved, runs, kept) = move_bitmap-IsShort n s d remap rows.0 below short.0 in
      let (out, runs', kept') = move_slices-AllShort n ss ds remap rows.1 below short.1 in
      (moved ∷ out, ground (arith, runs, runs'), (kept, kept'))

  pub replicate-AllShort : (n i : ℕ) → AllShort R n (replicate i R.new)
  replicate-AllShort n zero = tt
  replicate-AllShort n (suc i) = (new-IsShort n, replicate-AllShort n i)

  merge_bsi-AllShort :
      (n : ℕ) (a b : Bsi Bitmap) (remap_a remap_b : List ℕ)
      → AllShort R (length remap_a) a.b_a
      → AllShort R (length remap_b) b.b_a
      → AllBelow n remap_a
      → AllBelow n remap_b
      → (out : Bsi Bitmap) × (merge_bsi R a b remap_a remap_b n ≡ some out) × AllShort R n out.b_a
  unfolding merge_bsi new_bsi init_bitmaps
  merge_bsi-AllShort n a b remap_a remap_b rows_a rows_b below_a below_b =
      let start =
        replicate (if ltb (length a.b_a) (length b.b_a) then length b.b_a else length a.b_a)
          R.new in
      let (with_a, runs, short) =
        move_slices-AllShort n a.b_a start remap_a rows_a below_a (replicate-AllShort n _) in
      let (with_b, runs', short') =
        move_slices-AllShort n b.b_a with_a remap_b rows_b below_b short in
      let out : Bsi Bitmap = record {
        b_a = with_b;
        e_bm = if ltb 0 n then R.add_range R.new 0 n else R.new;
        max_value = max_signed R b.max_value a.max_value;
        min_value = min_signed R b.min_value a.min_value;
        run_optimized = false;
      } in
      (out, ground (arith, runs, runs'), short')

  -- All rows that the parts of the index speak of have keys.
  pub record IsBounded (ri : RoaringIndex Bitmap) : Type 0 where
    pub tag_rows : MapShort (length ri.keys) ri.tags
    pub annotation_rows : MapShort (length ri.keys) ri.annotations
    pub start_rows : AllShort R (length ri.keys) ri.start_time.b_a
    pub end_rows : AllShort R (length ri.keys) ri.end_time.b_a
    pub index_rows : AllRows R (length ri.keys) ri.indexes

  -- `mergeTwoIndices` of two bounded indexes, of any size, returns a bounded index with the keys of
  -- both.
  pub merge_two_indices-IsBounded :
      (a b : RoaringIndex Bitmap)
      → IsBounded a
      → IsBounded b
      → (out : RoaringIndex Bitmap) × (merge_two_indices R a b ≡ some out)
        × IsBounded out
        × ((p : EventKey → Bool) → any p out.keys ≡ (any p a.keys || any p b.keys))
  unfolding merge_two_indices merge_indexes
  merge_two_indices-IsBounded a b fa fb =
      let m = merge_keys (length a.keys + length b.keys) 0 a.keys b.keys in
      let z = merge_keys-IsSized (length a.keys + length b.keys) 0 a.keys b.keys (omega arith) in
      let n = length m.keys in
      let below_a : AllBelow n m.remap_a = AllBelow-shift _ n m.remap_a (omega arith) z.below_a in
      let below_b : AllBelow n m.remap_b = AllBelow-shift _ n m.remap_b (omega arith) z.below_b in
      let (with_a, run_a, rows) =
        move_indexes-AllRows n a.indexes m.remap_a [] (rw z.size_a fa.index_rows) below_a tt in
      let (indexes, run_b, rows') =
        move_indexes-AllRows n b.indexes m.remap_b with_a (rw z.size_b fb.index_rows) below_b
          rows in
      let (tags, run2, tag) =
        merge_maps-MapShort same_bytes n a.tags b.tags m.remap_a m.remap_b (rw z.size_a fa.tag_rows)
          (rw z.size_b fb.tag_rows) below_a below_b in
      let (annotations, run3, annotation) =
        merge_maps-MapShort same_pair n a.annotations b.annotations m.remap_a m.remap_b
          (rw z.size_a fa.annotation_rows) (rw z.size_b fb.annotation_rows) below_a below_b in
      let (starts, run4, start) =
        merge_bsi-AllShort n a.start_time b.start_time m.remap_a m.remap_b
          (rw z.size_a fa.start_rows) (rw z.size_b fb.start_rows) below_a below_b in
      let (ends, run5, end) =
        merge_bsi-AllShort n a.end_time b.end_time m.remap_a m.remap_b (rw z.size_a fa.end_rows)
          (rw z.size_b fb.end_rows) below_a below_b in
      let out : RoaringIndex Bitmap = record {
        all = if ltb 0 n then R.add_range R.new 0 n else R.new;
        start_time = starts;
        end_time = ends;
        tags = tags;
        annotations = annotations;
        keys = m.keys;
        indexes = indexes;
      } in
      (
        out,
        merge_parts-eq R m a b out (ground (arith, run_a, run_b)) run2 run3 run4 run5 refl refl,
        record {
          tag_rows = tag;
          annotation_rows = annotation;
          start_rows = start;
          end_rows = end;
          index_rows = rows';
        },
        z.same_keys,
      )
