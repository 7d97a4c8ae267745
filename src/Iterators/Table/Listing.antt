-- ===== src/Iterators/Table/Listing.antt =====
-- The keys that a `MemTableIterator` gives: of the items that are current, those that match.
use bitstar.Base.{
  ℕ, zero, suc, ◌<◌, ◌≤◌, ◌≡◌, ◌⊎◌, inl, inr, refl, ap, ◌∙◌, Bool, true, false, not, ◌&&◌, List, [],
  ◌∷◌, Option, none, some, ltb, leb, length, if◌then◌else◌, arith, Bool-cases,
}
use bitstar.Keys.Defs.{EventKey}
use bitstar.Filtering.Syntax.{Filter}
use bitstar.Memtable.Defs.{Bloom, MemTableItem}
use bitstar.Iterators.Table.Defs.{
  Items, Element, first_element, next_element, MemTableIterator, new_mem_table_iterator, is_repeat,
  is_match, find_next, start_element, table_next, table_value, table_drain,
}

module _ (B : Bloom) where
  -- The items with a timestamp at most `ts`, without those that have such an item of the same id
  -- right before them.
  abbrev current_items : ℕ → Option EventKey → Items B → Items B
  current_items ts prev [] = []
  current_items ts prev ((key, item) ∷ after) =
      let rest = current_items ts (some key) after in
      if leb key.timestamp ts && not (is_repeat B ts prev key) then (key, item) ∷ rest else rest

  abbrev matching_keys : Filter → Items B → List EventKey
  matching_keys f [] = []
  matching_keys f ((key, item) ∷ after) =
      let rest = matching_keys f after in if is_match B f item then key ∷ rest else rest

  abbrev table_listing : ℕ → Filter → Option EventKey → Items B → List EventKey
  table_listing ts f prev items = matching_keys f (current_items ts prev items)

  -- Does `Next` stop at the item?
  abbrev is_taken : ℕ → Filter → Option EventKey → EventKey → MemTableItem B.BloomFilter → Bool
  is_taken ts f prev key item =
      leb key.timestamp ts && not (is_repeat B ts prev key) && is_match B f item

  find_next-cons :
      (ts : ℕ) (f : Filter) (prev : Option EventKey) (key : EventKey)
      (item : MemTableItem B.BloomFilter) (after : Items B) (taken : Bool)
      → is_taken ts f prev key item ≡ taken
      → find_next B ts f prev ((key, item) ∷ after) ≡ (
          if taken
          then some (record { prev = prev; key = key; item = item; after = after })
          else find_next B ts f (some key) after)
  unfolding find_next
  find_next-cons ts f prev key item after taken h =
      let rest = find_next B ts f (some key) after in
      let stop : Option (Element B) =
        some (record { prev = prev; key = key; item = item; after = after }) in
      chain (leb key.timestamp ts) (ltb ts key.timestamp) (is_repeat B ts prev key)
        (is_match B f item) stop rest (ground arith)
      ∙ ap (λ t. if t then stop else rest) h
    where
      chain :
          (early late again matched : Bool) (stop rest : Option (Element B))
          → late ≡ not early
          → (if late then rest else if again then rest else if matched then stop else rest)
            ≡ (if early && not again && matched then stop else rest)
      chain early late again matched stop rest e = ground (arith, e)

  table_listing-cons :
      (ts : ℕ) (f : Filter) (prev : Option EventKey) (key : EventKey)
      (item : MemTableItem B.BloomFilter) (after : Items B) (taken : Bool)
      → is_taken ts f prev key item ≡ taken
      → table_listing ts f prev ((key, item) ∷ after) ≡ (
          if taken
          then key ∷ table_listing ts f (some key) after
          else table_listing ts f (some key) after)
  table_listing-cons ts f prev key item after taken h =
      elim (Bool-cases (leb key.timestamp ts && not (is_repeat B ts prev key))) [
        | inl current ↦ rw current (ground arith)
        | inr passed ↦ rw passed (ground arith)
      ]

  find_next-table_listing :
      (ts : ℕ) (f : Filter) (prev : Option EventKey) (items : Items B)
      → ((find_next B ts f prev items ≡ none) × (table_listing ts f prev items ≡ []))
        ⊎ ((e : Element B) × (find_next B ts f prev items ≡ some e)
            × (table_listing ts f prev items ≡ e.key ∷ table_listing ts f (some e.key) e.after))
  find_next-table_listing ts f prev [] = inl (unfold find_next in refl, refl)
  find_next-table_listing ts f prev ((key, item) ∷ after) =
      elim (Bool-cases (is_taken ts f prev key item)) [
        | inl taken ↦ inr (
          record { prev = prev; key = key; item = item; after = after },
          find_next-cons ts f prev key item after true taken,
          table_listing-cons ts f prev key item after true taken,
        )
        | inr passed ↦
            rw
              (
                find_next-cons ts f prev key item after false passed,
                table_listing-cons ts f prev key item after false passed,
              )
              (find_next-table_listing ts f (some key) after)
      ]

  -- What is still to come.
  record IsPending (mti : MemTableIterator B) (out : List EventKey) : Type 0 where
    not_ended : mti.end ≡ false
    to_come :
        ((start_element B mti ≡ none) × (out ≡ []))
        ⊎ ((e : Element B) × (start_element B mti ≡ some e)
            × (out ≡ table_listing mti.ts mti.f e.prev ((e.key, e.item) ∷ e.after)))

  table_next-ended :
      (mti : MemTableIterator B)
      → IsPending mti []
      → (mti' : MemTableIterator B) × (table_next B mti ≡ (mti', false))
  unfolding table_next
  table_next-ended mti pending = elim pending.to_come [
    | inl (nowhere, e) ↦
        (record mti { next = none; end = true }, ground (arith, pending.not_ended, nowhere))
    | inr (e, starts, all) ↦
        elim (find_next-table_listing mti.ts mti.f e.prev ((e.key, e.item) ∷ e.after)) [
          | inl (stops, nothing) ↦ (
            record mti { cur = none; next = none; end = true },
            ground (arith, pending.not_ended, starts, stops),
          )
          | inr (found, finds, first) ↦ absurd (cc (all, first))
        ]
  ]

  start-next :
      (mti : MemTableIterator B) (found : Element B)
      → start_element B (record mti { cur = some found; next = next_element B found })
        ≡ next_element B found
  unfolding start_element
  start-next mti found = refl

  listing-next :
      (ts : ℕ) (f : Filter) (prev : Option EventKey) (items : Items B)
      → ((first_element B prev items ≡ none) × (table_listing ts f prev items ≡ []))
        ⊎ ((e : Element B) × (first_element B prev items ≡ some e)
            × (table_listing ts f prev items
                ≡ table_listing ts f e.prev ((e.key, e.item) ∷ e.after)))
  listing-next ts f prev [] = inl (refl, refl)
  listing-next ts f prev ((key, item) ∷ after) = inr (_, refl, refl)

  table_next-IsPending :
      (mti : MemTableIterator B) (k : EventKey) (out : List EventKey)
      → IsPending mti (k ∷ out)
      → (mti' : MemTableIterator B) × (table_next B mti ≡ (mti', true))
        × (table_value B mti' ≡ some k)
        × IsPending mti' out
  unfolding table_next table_value
  table_next-IsPending mti k out pending = elim pending.to_come [
    | inl (nowhere, e) ↦ absurd (cc e)
    | inr (e, starts, all) ↦
        elim (find_next-table_listing mti.ts mti.f e.prev ((e.key, e.item) ∷ e.after)) [
          | inl (stops, nothing) ↦ absurd (cc (all, nothing))
          | inr (found, finds, first) ↦
              let head : found.key ≡ k = cc (all, first) in
              let rest : table_listing mti.ts mti.f (some found.key) found.after ≡ out =
                cc (all, first) in
              let mti' : MemTableIterator B = record mti {
                cur = some found;
                next = next_element B found;
              } in
              (
                mti',
                ground (arith, pending.not_ended, starts, finds),
                ap (λ (x : EventKey). some x) head,
                record {
                  not_ended = pending.not_ended;
                  to_come =
                      rw (start-next mti found, ← rest)
                        (listing-next mti.ts mti.f (some found.key) found.after);
                },
              )
        ]
  ]

  table_drain-IsPending :
      (fuel : ℕ) (mti : MemTableIterator B) (out : List EventKey)
      → IsPending mti out
      → length out < fuel
      → table_drain B fuel mti ≡ some out
  unfolding table_drain
  table_drain-IsPending zero mti out pending enough = absurd (omega arith)
  table_drain-IsPending (suc fuel) mti [] pending enough =
      let (mti', runs) = table_next-ended mti pending in ground (arith, runs)
  table_drain-IsPending (suc fuel) mti (k ∷ out) pending enough =
      let (mti', runs, value, later) = table_next-IsPending mti k out pending in
      let rest = table_drain-IsPending fuel mti' out later (omega arith) in
      ground (arith, runs, value, rest)

  length-table_listing :
      (ts : ℕ) (f : Filter) (prev : Option EventKey) (items : Items B)
      → length (table_listing ts f prev items) ≤ length items
  length-table_listing ts f prev [] = ground arith
  length-table_listing ts f prev ((key, item) ∷ after) =
      ground (arith, length-table_listing ts f (some key) after)

  pub table_drain-new_mem_table_iterator :
      (mt : Items B) (f : Filter) (ts fuel : ℕ)
      → length mt < fuel
      → table_drain B fuel (new_mem_table_iterator B mt f ts)
        ≡ some (matching_keys f (current_items ts none mt))
  unfolding new_mem_table_iterator start_element
  table_drain-new_mem_table_iterator mt f ts fuel enough =
      table_drain-IsPending fuel (new_mem_table_iterator B mt f ts) (table_listing ts f none mt)
        (record { not_ended = refl; to_come = listing-next ts f none mt })
        (omega (arith, length-table_listing ts f none mt))
