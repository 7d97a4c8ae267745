-- ===== src/Iterators/Rows/Listing.antt =====
-- The keys that an `IndexIterator` gives: those of the posting that are old enough, without repeats.
use bitstar.Base.{
  ℕ, zero, suc, ◌<◌, ◌≤◌, ◌≡◌, ◌⊎◌, inl, inr, refl, ap, Bytes, true, false, List, [], ◌∷◌, Option,
  none, some, length, get_elem?, arith, Bool-cases, Option-cases,
}
use bitstar.Roaring.{Roaring}
use bitstar.Keys.Defs.{EventKey}
use bitstar.Index.Defs.{RoaringIndex}
use bitstar.Iterators.Rows.Defs.{
  IndexIterator, is_passed, advance_over, advance, new_index_iterator, rows_next, rows_value, drain,
}
use bitstar.Iterators.Rows.Keys.{
  keys_at, visible_at, first_of_each, last_id, first_of_each-passed, first_of_each-taken,
}

module _ (R : Roaring) where
  open R use {Bitmap}

  -- What is still to come.
  record IsPending (keys : List EventKey) (ts : ℕ) (ii : IndexIterator R) (out : List EventKey)
      : Type 0 where
    same_keys : ii.ri.keys ≡ keys
    same_ts : ii.ts ≡ ts
    not_ended : ii.end ≡ false
    to_come :
        ((ii.has_next ≡ false) × (out ≡ []))
        ⊎ ((k : EventKey) × (ks : List EventKey) × (ii.has_next ≡ true)
            × (get_elem? keys ii.next_idx ≡ some k)
            × (keys_at keys ii.it ≡ some ks)
            × (out ≡ k ∷ first_of_each (some k.id) (visible_at ts ks)))

  advance_over-IsPending :
      (ii : IndexIterator R) (rows : List ℕ) (ks : List EventKey)
      → keys_at ii.ri.keys rows ≡ some ks
      → ii.end ≡ false
      → ii.has_next ≡ false
      → (ii' : IndexIterator R) × (advance_over R ii rows ≡ some ii')
        × (ii'.index ≡ ii.index)
        × IsPending ii.ri.keys ii.ts ii' (first_of_each (last_id R ii) (visible_at ii.ts ks))
  unfolding advance_over
  advance_over-IsPending ii [] ks h live idle = (
    record ii { it = [] },
    refl,
    refl,
    record {
      same_keys = refl;
      same_ts = refl;
      not_ended = live;
      to_come = inl (idle, ground arith);
    },
  )
  advance_over-IsPending ii (r ∷ rows) ks h live idle =
      elim (Option-cases (get_elem? ii.ri.keys r)) [
        | inl missing ↦ absurd (ground arith)
        | inr (key, there) ↦ elim (Option-cases (keys_at ii.ri.keys rows)) [
          | inl missing ↦ absurd (ground arith)
          | inr (rest, others) ↦
              let whole : key ∷ rest ≡ ks = ground arith in
              elim (Bool-cases (is_passed R ii key)) [
                | inl passed ↦
                    let (ii', runs, same, pending) =
                      advance_over-IsPending ii rows rest others live idle in
                    let skip = first_of_each-passed R ii key rest passed in
                    (ii', ground (arith, there, passed, runs), same, rw (← whole, skip) pending)
                | inr taken ↦ (
                  record ii { it = rows; next_idx = r; has_next = true },
                  ground (arith, there, taken),
                  refl,
                  record {
                    same_keys = refl;
                    same_ts = refl;
                    not_ended = live;
                    to_come = inr (
                      key,
                      rest,
                      refl,
                      there,
                      others,
                      rw (← whole) (first_of_each-taken R ii key rest taken),
                    );
                  },
                )
              ]
        ]
      ]

  -- After a `Next` on what is to come: nothing, or the first key, and the others are to come.
  rows_next-IsPending :
      (keys : List EventKey) (ts : ℕ) (ii : IndexIterator R) (k : EventKey) (out : List EventKey)
      → IsPending keys ts ii (k ∷ out)
      → (ii' : IndexIterator R) × (rows_next R ii ≡ some (ii', true))
        × (rows_value R ii' ≡ some k)
        × IsPending keys ts ii' out
  unfolding rows_next advance rows_value
  rows_next-IsPending keys ts ii k out pending = elim pending.to_come [
    | inl (idle, e) ↦ absurd (cc e)
    | inr (k', ks, more, there, rest, e) ↦
        let there' : get_elem? ii.ri.keys ii.next_idx ≡ some k' = rw pending.same_keys there in
        let rest' : keys_at ii.ri.keys ii.it ≡ some ks = rw pending.same_keys rest in
        let emitted : IndexIterator R = record ii {
          index = ii.next_idx;
          last_emitted_id = k'.id;
          has_emitted = true;
          has_next = false;
        } in
        let (ii', runs, same, later) =
          advance_over-IsPending emitted ii.it ks rest' pending.not_ended refl in
        let first : k' ≡ k = cc e in
        let others : first_of_each (some k'.id) (visible_at ts ks) ≡ out = cc e in
        (
          ii',
          ground (arith, pending.not_ended, more, there', runs),
          rw (later.same_keys, same, there') (ap (λ (x : EventKey). some x) first),
          rw (← others, ← pending.same_keys, ← pending.same_ts) later,
        )
  ]

  rows_next-ended :
      (keys : List EventKey) (ts : ℕ) (ii : IndexIterator R)
      → IsPending keys ts ii []
      → (ii' : IndexIterator R) × (rows_next R ii ≡ some (ii', false))
  unfolding rows_next
  rows_next-ended keys ts ii pending = elim pending.to_come [
    | inl (idle, e) ↦ (record ii { end = true }, ground (arith, pending.not_ended, idle))
    | inr (k, ks, more, there, rest, e) ↦ absurd (cc e)
  ]

  drain-IsPending :
      (keys : List EventKey) (ts : ℕ) (fuel : ℕ) (ii : IndexIterator R) (out : List EventKey)
      → IsPending keys ts ii out
      → length out < fuel
      → drain R fuel ii ≡ some out
  unfolding drain
  drain-IsPending keys ts zero ii out pending enough = absurd (omega arith)
  drain-IsPending keys ts (suc fuel) ii [] pending enough =
      let (ii', runs) = rows_next-ended keys ts ii pending in ground (arith, runs)
  drain-IsPending keys ts (suc fuel) ii (k ∷ out) pending enough =
      let (ii', runs, value, later) = rows_next-IsPending keys ts ii k out pending in
      let rest = drain-IsPending keys ts fuel ii' out later (omega arith) in
      ground (arith, runs, value, rest)

length-first_of_each :
    (last : Option Bytes) (ts : ℕ) (ks : List EventKey)
    → length (first_of_each last (visible_at ts ks)) ≤ length ks
length-first_of_each last ts [] = ground arith
length-first_of_each none ts (k ∷ ks) =
    ground (arith, length-first_of_each none ts ks, length-first_of_each (some k.id) ts ks)
length-first_of_each (some id) ts (k ∷ ks) =
    ground (arith, length-first_of_each (some id) ts ks, length-first_of_each (some k.id) ts ks)

length-keys_at :
    (keys : List EventKey) (rows : List ℕ) (ks : List EventKey)
    → keys_at keys rows ≡ some ks
    → length ks ≡ length rows
length-keys_at keys [] ks h = let nothing : [] ≡ ks = ground arith in rw (← nothing) refl
length-keys_at keys (r ∷ rows) ks h = elim (Option-cases (get_elem? keys r)) [
  | inl missing ↦ absurd (ground arith)
  | inr (k, there) ↦ elim (Option-cases (keys_at keys rows)) [
    | inl missing ↦ absurd (ground arith)
    | inr (rest, others) ↦
        let whole : k ∷ rest ≡ ks = ground arith in
        rw (← whole) (ap suc (length-keys_at keys rows rest others))
  ]
]

module _ (R : Roaring) where
  open R use {Bitmap}

  -- `IndexIterator` on a posting whose rows all have keys: it is made without a panic, and calling
  -- `Next` until it ends gives, in the order of the rows, the keys with a timestamp at most `ts`, of
  -- keys in a row with the same id only the first. It ends after at most as many keys as the posting
  -- has rows.
  pub drain-new_index_iterator :
      (ri : RoaringIndex Bitmap) (posting : Bitmap) (ts fuel : ℕ) (ks : List EventKey)
      → keys_at ri.keys (R.to_array posting) ≡ some ks
      → R.cardinality posting < fuel
      → (ii : IndexIterator R) × (new_index_iterator R ri posting ts ≡ some ii)
        × (drain R fuel ii ≡ some (first_of_each none (visible_at ts ks)))
  unfolding new_index_iterator advance
  drain-new_index_iterator ri posting ts fuel ks h enough =
      let start : IndexIterator R = record {
        ri = ri;
        posting = posting;
        it = R.to_array posting;
        index = 0;
        next_idx = 0;
        has_next = false;
        last_emitted_id = [];
        has_emitted = false;
        end = false;
        ts = ts;
      } in
      let (ii, runs, same, pending) =
        advance_over-IsPending R start (R.to_array posting) ks h refl refl in
      let size = length-first_of_each none ts ks in
      let rows = length-keys_at ri.keys (R.to_array posting) ks h in
      (
        ii,
        runs,
        drain-IsPending R ri.keys ts fuel ii (first_of_each none (visible_at ts ks)) pending
            (omega (arith, size, rows, R.cardinality-to_array posting)),
      )
