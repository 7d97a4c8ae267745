-- ===== src/Index/Bounded.antt =====
-- `indexEvent` and `fromMemTable` keep the rows of an index bounded, and give the keys of the table.
use bitstar.Base.{
  ℕ, zero, suc, ◌-◌, ◌%◌, ◌^◌, ◌<◌, ◌≡◌, refl, Bool, true, false, ◌||◌, List, [], ◌∷◌, ◌++◌, none,
  some, Option, ap, ◌∙◌, arith, length, length-append, any, any-append, Bool-cases, Option-cases,
  inl, inr, same_bytes, bit, ◌==◌, ◌&&◌, len64, Bytes,
}
use native.Mathlib.Nat.{mod-le}
use bitstar.Roaring.{Roaring}
use bitstar.Keys.Defs.{EventKey, unix}
use bitstar.Bsi.Defs.{
  Bsi, column, append_slice, grow, auto_size, write_bits, set_value, new_bsi, new_default_bsi,
}
use bitstar.Memtable.Defs.{Event}
use bitstar.Index.Defs.{
  RoaringIndex, Pair, same_pair, event_key_from_proto, add_tags, add_annotations, index_event,
  new_roaring_index, from_items, from_mem_table,
}
use bitstar.Index.Returns.{BothPlain, index_event_returns}
use bitstar.Index.Merge.Maps.{IsShort, AllShort}
use bitstar.Index.Merge.Carried.{AllRows}
use bitstar.Index.Merge.Kept.{
  MapShort, new-IsShort, entry_or-IsShort, insert_by-MapShort, insert_by-AllRows,
  replicate-AllShort, IsBounded,
}

module _ (R : Roaring) where
  open R use {Bitmap}

  AllShort-append : (n : ℕ) (ss : List Bitmap) → AllShort R n ss → AllShort R n (ss ++ R.new ∷ [])
  AllShort-append n [] h = (new-IsShort R n, tt)
  AllShort-append n (s ∷ ss) h = (h.0, AllShort-append n ss h.1)

  AllShort-suc : (n : ℕ) (ss : List Bitmap) → AllShort R n ss → AllShort R (suc n) ss
  AllShort-suc n [] h = tt
  AllShort-suc n (s ∷ ss) h =
      ((λ c e. let inside = h.0 c e in ground (arith, inside)), AllShort-suc n ss h.1)

  MapShort-suc {ℓ} :
      {K : Type ℓ} (n : ℕ) (m : List (K × Bitmap)) → MapShort R n m → MapShort R (suc n) m
  MapShort-suc n [] h = tt
  MapShort-suc n ((k, rb) ∷ m) h =
      ((λ c e. let inside = h.0 c e in ground (arith, inside)), MapShort-suc n m h.1)

  AllRows-suc : (n : ℕ) (m : List (EventKey × ℕ)) → AllRows R n m → AllRows R (suc n) m
  AllRows-suc n [] h = tt
  AllRows-suc n ((k, r) ∷ m) h = (omega (arith, h.0), AllRows-suc n m h.1)

  grow-AllShort :
      (n i : ℕ) (b b' : Bsi Bitmap)
      → b.run_optimized ≡ false
      → AllShort R n b.b_a
      → grow R i b ≡ some b'
      → AllShort R n b'.b_a
  unfolding grow append_slice
  grow-AllShort n zero b b' plain h e = let same : b ≡ b' = ground arith in rw (← same) h
  grow-AllShort n (suc i) b b' plain h e =
      grow-AllShort n i (record b { b_a = b.b_a ++ R.new ∷ [] }) b' plain
        (AllShort-append n b.b_a h) (ground arith)

  add-IsShort : (n c : ℕ) (s : Bitmap) → c < n → IsShort R n s → IsShort R n (R.add s c)
  add-IsShort n c s inside h d e = elim (Bool-cases (d == c)) [
    | inl here ↦ ground arith
    | inr other ↦ h d (ground (arith, R.contains-add s c d))
  ]

  remove-IsShort : (n c : ℕ) (s : Bitmap) → IsShort R n s → IsShort R n (R.remove s c)
  remove-IsShort n c s h d e = h d (ground (arith, R.contains-remove s c d))

  write_bits-AllShort :
      (n : ℕ) (exists : Bool) (value c i : ℕ) (ss : List Bitmap)
      → c < n
      → AllShort R n ss
      → AllShort R n (write_bits R exists value c i ss)
  unfolding write_bits
  write_bits-AllShort n exists value c i [] inside h = tt
  write_bits-AllShort n exists value c i (s ∷ ss) inside h = (
    elim (Bool-cases (bit value i)) [
      | inl on ↦ rw on (add-IsShort n c s inside h.0)
      | inr off ↦ elim (Bool-cases exists) [
        | inl old ↦ rw (off, old) (remove-IsShort n c s h.0)
        | inr fresh ↦ rw (off, fresh) h.0
      ]
    ],
    write_bits-AllShort n exists value c (suc i) ss inside h.1,
  )

  set_value-AllShort :
      (n id value : ℕ) (b b' : Bsi Bitmap)
      → b.run_optimized ≡ false
      → id < n
      → AllShort R n b.b_a
      → set_value R b id value ≡ some b'
      → AllShort R n b'.b_a
  unfolding set_value auto_size
  set_value-AllShort n id value b b' plain inside h e =
      let small = mod-le id (2 ^ 32) in
      elim (Option-cases (auto_size R b value)) [
        | inl stopped ↦ absurd (ground arith)
        | inr (sized, sizes) ↦
            let short : AllShort R n sized.b_a =
              elim (Bool-cases (b.max_value == 0 && b.min_value == 0)) [
                | inl auto ↦
                    grow-AllShort n (len64 value - length b.b_a) b sized plain h (ground arith)
                | inr limited ↦ let same : b ≡ sized = ground arith in rw (← same) h
              ] in
            let same : write_bits R (R.contains sized.e_bm (column id)) value (column id) 0
                  sized.b_a
                ≡ b'.b_a =
              ground arith in
            rw (← same)
              (write_bits-AllShort n _ value (column id) 0 sized.b_a (ground (arith, small)) short)
      ]

  add_tags-MapShort :
      (n : ℕ) (tags : List Bytes) (row : ℕ) (m : List (Bytes × Bitmap))
      → row < n
      → MapShort R n m
      → MapShort R n (add_tags R tags row m)
  unfolding add_tags
  add_tags-MapShort n [] row m inside h = h
  add_tags-MapShort n (tag ∷ tags) row m inside h = add_tags-MapShort n tags row _ inside (
      insert_by-MapShort R same_bytes n tag _ m
        (add-IsShort n row _ inside (entry_or-IsShort R same_bytes n tag m h)) h)

  add_annotations-MapShort :
      (n : ℕ) (pairs : List Pair) (row : ℕ) (m : List (Pair × Bitmap))
      → row < n
      → MapShort R n m
      → MapShort R n (add_annotations R pairs row m)
  unfolding add_annotations
  add_annotations-MapShort n [] row m inside h = h
  add_annotations-MapShort n (pair ∷ pairs) row m inside h =
      add_annotations-MapShort n pairs row _ inside (
        insert_by-MapShort R same_pair n pair _ m
          (add-IsShort n row _ inside (entry_or-IsShort R same_pair n pair m h)) h)

  index_event-IsBounded :
      (ri : RoaringIndex Bitmap) (e : Event) (ts : ℕ) (is_deleted : Bool)
      → BothPlain R ri
      → IsBounded R ri
      → (ri' : RoaringIndex Bitmap) × (index_event R ri (some e) ts is_deleted ≡ some ri')
        × BothPlain R ri'
        × IsBounded R ri'
        × ((key : EventKey) × (key ≡ record (event_key_from_proto e ts is_deleted) { local = true })
            × (ri'.keys ≡ ri.keys ++ key ∷ []))
  index_event-IsBounded ri e ts is_deleted plain h =
      let (ri', runs, plain', run, run', tags, annotations, (key, is_key, keys, indexes)) =
        index_event_returns R ri e ts is_deleted plain in
      let n = length ri.keys in
      let row = n % 2 ^ 32 in
      let small = mod-le n (2 ^ 32) in
      let inside : row < suc n = ground (arith, small) in
      let size : length ri'.keys ≡ suc n = ground (arith, keys, length-append ri.keys (key ∷ [])) in
      (
        ri',
        runs,
        plain',
        record {
          tag_rows =
              rw (tags, size)
                (add_tags-MapShort (suc n) e.tags row ri.tags inside
                  (MapShort-suc n ri.tags h.tag_rows));
          annotation_rows =
              rw (annotations, size)
                (add_annotations-MapShort (suc n) e.annotations row ri.annotations inside
                  (MapShort-suc n ri.annotations h.annotation_rows));
          start_rows = rw size (
              set_value-AllShort (suc n) row (unix e.start_time) ri.start_time ri'.start_time
                plain.0 inside (AllShort-suc n ri.start_time.b_a h.start_rows) run);
          end_rows = rw size (
              set_value-AllShort (suc n) row (unix e.end_time) ri.end_time ri'.end_time plain.1
                inside (AllShort-suc n ri.end_time.b_a h.end_rows) run');
          index_rows =
              rw (indexes, size)
                (insert_by-AllRows R (suc n) key row ri.indexes inside
                  (AllRows-suc n ri.indexes h.index_rows));
        },
        (key, is_key, keys),
      )

  pub new_roaring_index-IsBounded : IsBounded R (new_roaring_index R)
  unfolding new_roaring_index new_default_bsi new_bsi
  new_roaring_index-IsBounded = record {
    tag_rows = tt;
    annotation_rows = tt;
    start_rows = replicate-AllShort R 0 _;
    end_rows = replicate-AllShort R 0 _;
    index_rows = tt;
  }

  -- The test gives the key that the index makes of an item what it gives the item's key.
  abbrev pub IsTrue : (EventKey → Bool) → List (EventKey × Option Event) → Type 0
  IsTrue p [] = Unit
  IsTrue p ((key, none) ∷ items) = IsTrue p items
  IsTrue p ((key, some e) ∷ items) =
      (p (record (event_key_from_proto e key.timestamp key.is_deleted) { local = true }) ≡ p key)
      × IsTrue p items

  from_items-IsBounded :
      (items : List (EventKey × Option Event)) (ri ri' : RoaringIndex Bitmap)
      → BothPlain R ri
      → IsBounded R ri
      → from_items R ri items ≡ some ri'
      → IsBounded R ri'
        × ((p : EventKey → Bool)
            → IsTrue p items
            → any p ri'.keys ≡ (any p ri.keys || any (λ i. p i.0) items))
  unfolding from_items index_event
  from_items-IsBounded [] ri ri' plain h e =
      let same : ri ≡ ri' = ground arith in rw (← same) (h, λ p t. ground arith)
  from_items-IsBounded ((key, none) ∷ items) ri ri' plain h e = absurd (ground arith)
  from_items-IsBounded ((key, some event) ∷ items) ri ri' plain h e =
      let (ri₁, runs, plain₁, h₁, (made, is_made, keys)) =
        index_event-IsBounded ri event key.timestamp key.is_deleted plain h in
      let (kept, holds) = from_items-IsBounded items ri₁ ri' plain₁ h₁ (ground (arith, runs)) in
      (
        kept,
        λ p t.
            let there = any-append p ri.keys (made ∷ []) in
            let one : p made ≡ p key = ap p is_made ∙ t.0 in
            let rest = holds p t.1 in
            let first : any p ri₁.keys ≡ (any p ri.keys || p made) =
              ap (any p) keys ∙ there ∙ ground arith in
            ground (arith, rest, first, one),
      )

  -- The index that `fromMemTable` makes is bounded and has the keys of the items.
  pub from_mem_table-IsBounded :
      (items : List (EventKey × Option Event)) (ri : RoaringIndex Bitmap)
      → from_mem_table R items ≡ some ri
      → IsBounded R ri
        × ((p : EventKey → Bool) → IsTrue p items → any p ri.keys ≡ any (λ i. p i.0) items)
  unfolding from_mem_table new_roaring_index new_default_bsi new_bsi
  from_mem_table-IsBounded items ri e =
      from_items-IsBounded items (new_roaring_index R) ri (refl, refl) new_roaring_index-IsBounded e
