-- ===== src/Storage/Pages.antt =====
-- storage.go: the page that `ListEvents` cuts out of what the merged iterators give.
use bitstar.Base.{
  ℕ, zero, suc, ◌+◌, ◌-◌, ◌%◌, ◌^◌, ◌<◌, ◌≤◌, ◌≡◌, ◌↔◌, refl, ap, List, [], ◌∷◌, Option, none, some,
  arith, length, take, take_all, get_elem?, leb, ltb, ◌==◌, if◌then◌else◌, Bool-cases, Option-cases,
  inl, inr,
}
use bitstar.Keys.Defs.{EventKey}
use bitstar.Iterators.Merge.{Iterator, MergeIterator, merge_next, merge_value}

-- The keys of a page, and the key that the token of the next page is made of.
pub record Page : Type 0 where
  pub keys : List EventKey
  pub next_page_token : Option EventKey

pub data Listed : Type 0 where
  page : Page → Listed
  panicked : Listed
  out_of_fuel : Listed

-- The end of the page: the last of `page_size` keys becomes the token.
unfoldable cut_page : ℕ → List EventKey → Page
cut_page page_size keys =
    if length keys == 0
    then record { keys = []; next_page_token = none }
    else if length keys == page_size
    then record {
      keys = take (page_size - 1) keys;
      next_page_token = get_elem? keys (page_size - 1);
    }
    else record { keys = keys; next_page_token = none }

module _ {S : Type 0} (ops : Iterator S) (zero_key : EventKey) where
  -- The loop over the keys, with fuel for the calls of `Next` and the number of keys that are missing.
  unfoldable collect : ℕ → ℕ → MergeIterator S → Option (List EventKey)
  unfolding merge_next merge_value
  collect f zero mi = some []
  collect zero (suc n) mi = none
  collect (suc f) (suc n) mi =
      let (mi', more) = merge_next ops zero_key mi in
      let skipped = collect f (suc n) mi' in
      let taken = collect f n mi' in
      if more
      then if (merge_value ops mi').is_deleted
        then skipped
        else elim taken [ none ↦ none | some keys ↦ some (merge_value ops mi' ∷ keys) ]
      else some []

  -- `int(in.GetPageSize() + 1)` and what follows; a negative capacity makes `make` panic.
  unfoldable pub list_page : ℕ → ℕ → MergeIterator S → Listed
  unfolding collect cut_page
  list_page f requested mi =
      let page_size = (requested + 1) % 2 ^ 32 in
      if leb (2 ^ 31) page_size then panicked else elim (collect f page_size mi) [
        | none ↦ out_of_fuel
        | some keys ↦ page (cut_page page_size keys)
      ]

  -- All keys that the iterator gives until it ends.
  abbrev pub merge_drain : ℕ → MergeIterator S → Option (List EventKey)
  merge_drain zero mi = none
  merge_drain (suc f) mi =
      let (mi', more) = merge_next ops zero_key mi in
      let rest = merge_drain f mi' in
      if more
      then elim rest [ none ↦ none | some keys ↦ some (merge_value ops mi' ∷ keys) ]
      else some []

-- The keys of events that are not deleted.
abbrev pub live : List EventKey → List EventKey
live [] = []
live (k ∷ ks) = let rest = live ks in if k.is_deleted then rest else k ∷ rest

length-taken : (n : ℕ) (ks : List EventKey) → n < length ks → length (take (suc n) ks) ≡ suc n
length-taken n [] h = absurd (omega arith)
length-taken zero (k ∷ ks) h = refl
length-taken (suc n) (k ∷ ks) h = ap suc (length-taken n ks (omega arith))

take_taken : (n : ℕ) (ks : List EventKey) → take n (take (suc n) ks) ≡ take n ks
take_taken zero ks = refl
take_taken (suc n) [] = refl
take_taken (suc n) (k ∷ ks) = ap (λ t. k ∷ t) (take_taken n ks)

get_elem?-taken : (n : ℕ) (ks : List EventKey) → get_elem? (take (suc n) ks) n ≡ get_elem? ks n
get_elem?-taken n [] = refl
get_elem?-taken zero (k ∷ ks) = refl
get_elem?-taken (suc n) (k ∷ ks) = get_elem?-taken n ks

get_elem?-beyond : (n : ℕ) (ks : List EventKey) → length ks ≤ n → get_elem? ks n ≡ none
get_elem?-beyond n [] h = refl
get_elem?-beyond zero (k ∷ ks) h = absurd (omega arith)
get_elem?-beyond (suc n) (k ∷ ks) h = get_elem?-beyond n ks (omega arith)

cut_page-take :
    (n : ℕ) (ks : List EventKey)
    → cut_page (suc n) (take (suc n) ks)
      ≡ record { keys = take n ks; next_page_token = get_elem? ks n }
unfolding cut_page
cut_page-take n ks = elim (Bool-cases (ltb n (length ks))) [
  | inl more ↦
      let size = length-taken n ks (ground arith) in
      let cut : suc n - 1 ≡ n = omega arith in
      rw (size, cut, take_taken n ks, get_elem?-taken n ks) (ground arith)
  | inr few ↦
      let whole = take_all (suc n) ks (ground arith) in
      let whole' = take_all n ks (ground arith) in
      let beyond = get_elem?-beyond n ks (ground arith) in
      rw (whole, whole', beyond) (last ks (ground arith))
]
  where
    last :
        (ks' : List EventKey)
        → length ks' ≤ n
        → cut_page (suc n) ks' ≡ record { keys = ks'; next_page_token = none }
    last [] h = refl
    last (k ∷ ks') h = ground arith

module _ {S : Type 0} (ops : Iterator S) (zero_key : EventKey) where
  collect-take :
      (f n : ℕ) (mi : MergeIterator S) (all : List EventKey)
      → merge_drain ops zero_key f mi ≡ some all
      → collect ops zero_key f n mi ≡ some (take n (live all))
  unfolding collect
  collect-take f zero mi all h = refl
  collect-take zero (suc n) mi all h = absurd (ground arith)
  collect-take (suc f) (suc n) mi all h =
      let (mi', more) = merge_next ops zero_key mi in
      elim (Bool-cases more) [
        | inr ended ↦ let nothing : [] ≡ all = ground arith in rw (← nothing) (ground arith)
        | inl goes_on ↦ elim (Option-cases (merge_drain ops zero_key f mi')) [
          | inl stops ↦ absurd (ground arith)
          | inr (rest, drained) ↦
              let whole : merge_value ops mi' ∷ rest ≡ all = ground arith in
              let skipped = collect-take f (suc n) mi' rest drained in
              let taken = collect-take f n mi' rest drained in
              rw (← whole) (ground (arith, skipped, taken))
        ]
      ]

  -- The page of a request for `requested` keys, fewer than 2 ^ 31 - 1, when the merged iterators end:
  -- the first `requested` keys that are not deleted, and the key behind them as the token, which is
  -- there exactly when there is a key behind them.
  pub list_page_lem :
      (f requested : ℕ) (mi : MergeIterator S) (all : List EventKey)
      → requested + 1 < 2 ^ 31
      → merge_drain ops zero_key f mi ≡ some all
      → list_page ops zero_key f requested mi
        ≡ page (record {
          keys = take requested (live all);
          next_page_token = get_elem? (live all) requested;
        })
  unfolding list_page
  list_page_lem f requested mi all small drained =
      let size : (requested + 1) % 2 ^ 32 ≡ suc requested = omega arith in
      let found = collect-take f (suc requested) mi all drained in
      let cut = cut_page-take requested (live all) in rw size (ground (arith, found, cut))

  -- A request for a negative number of keys below -1, or for the largest `int32`, makes `ListEvents`
  -- panic, and no other does.
  pub list_page-panicked :
      (f requested : ℕ) (mi : MergeIterator S) (all : List EventKey)
      → requested < 2 ^ 32
      → merge_drain ops zero_key f mi ≡ some all
      → (list_page ops zero_key f requested mi ≡ panicked)
        ↔ ((2 ^ 31 ≤ requested + 1) × (requested + 1 < 2 ^ 32))
  unfolding list_page
  list_page-panicked f requested mi all small drained =
      let size = (requested + 1) % 2 ^ 32 in
      let found = collect-take f size mi all drained in
      elim (Bool-cases (leb (2 ^ 31) size)) [
        | inl negative ↦ (λ h. (ground arith, ground arith), λ h. ground arith)
        | inr fits ↦ (λ h. absurd (ground (arith, found)), λ h. absurd (ground arith))
      ]
