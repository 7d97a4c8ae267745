-- ===== src/Iterators/Table/Defs.antt =====
-- `MemTableIterator` with `NewMemTableIterator`, `Valid`, `Next`, `Value` and `Seek`.
use bitstar.Base.{
  ℕ, zero, suc, Bool, true, false, ◌&&◌, not, List, [], ◌∷◌, Option, none, some, ltb, leb,
  if◌then◌else◌, same_bytes,
}
use bitstar.Keys.Defs.{EventKey}
use bitstar.Filtering.Syntax.{Filter}
use bitstar.Memtable.Defs.{Bloom, MemTableItem, ok, err, match_expression_ptr}

module _ (B : Bloom) where
  open B use {BloomFilter}

  -- The items of a memtable in the order of its skip list.
  abbrev pub Items : Type 0
  Items = List (EventKey × MemTableItem BloomFilter)

  -- A pointer to an element of the skip list: the key before it, the element, those behind it.
  pub record Element : Type 0 where
    pub prev : Option EventKey
    pub key : EventKey
    pub item : MemTableItem BloomFilter
    pub after : Items

  -- The element that starts the items, with the key before them.
  abbrev pub first_element : Option EventKey → Items → Option Element
  first_element prev [] = none
  first_element prev ((key, item) ∷ after) =
      some (record { prev = prev; key = key; item = item; after = after })

  -- `cur.Next()`.
  abbrev pub next_element : Element → Option Element
  next_element e = first_element (some e.key) e.after

  -- `MemTableIterator`, while its table has these items.
  pub record MemTableIterator : Type 0 where
    pub mt : Items
    pub ts : ℕ
    pub f : Filter
    pub cur : Option Element
    pub next : Option Element
    pub end : Bool

  -- `NewMemTableIterator`.
  unfoldable pub new_mem_table_iterator : Items → Filter → ℕ → MemTableIterator
  new_mem_table_iterator mt f ts = record {
    mt = mt;
    ts = ts;
    f = f;
    cur = none;
    next = none;
    end = false;
  }

  -- `Valid`.
  abbrev table_valid : MemTableIterator → Bool
  table_valid mti = not mti.end

  -- `prev != nil && key.ID == prev.ID && prev.Timestamp <= mti.ts`.
  unfoldable pub is_repeat : ℕ → Option EventKey → EventKey → Bool
  unfolding same_bytes
  is_repeat ts none key = false
  is_repeat ts (some prev) key = same_bytes key.id prev.id && leb prev.timestamp ts

  -- `match && err == nil`.
  unfoldable pub is_match : Filter → MemTableItem BloomFilter → Bool
  unfolding match_expression_ptr
  is_match f item = elim (match_expression_ptr B f.expression item) [
    | ok matched ↦ matched
    | err e ↦ false
  ]

  -- The loop of `Next` from the first of the items on.
  unfoldable pub find_next : ℕ → Filter → Option EventKey → Items → Option Element
  unfolding is_repeat is_match
  find_next ts f prev [] = none
  find_next ts f prev ((key, item) ∷ after) =
      let rest = find_next ts f (some key) after in
      if ltb ts key.timestamp
      then rest
      else if is_repeat ts prev key
      then rest
      else if is_match f item
      then some (record { prev = prev; key = key; item = item; after = after })
      else rest

  -- Where `Next` starts: at `next`, or at the front before the first call.
  unfoldable pub start_element : MemTableIterator → Option Element
  start_element mti = elim mti.cur [
    | some e ↦ mti.next
    | none ↦ elim mti.next [ some e ↦ some e | none ↦ first_element none mti.mt ]
  ]

  -- `Next`.
  unfoldable pub table_next : MemTableIterator → MemTableIterator × Bool
  unfolding start_element find_next
  table_next mti = elim mti.end [
    | true ↦ (mti, false)
    | false ↦ elim (start_element mti) [
      | none ↦ (record mti { next = none; end = true }, false)
      | some e ↦ elim (find_next mti.ts mti.f e.prev ((e.key, e.item) ∷ e.after)) [
        | none ↦ (record mti { cur = none; next = none; end = true }, false)
        | some found ↦ (record mti { cur = some found; next = next_element found }, true)
      ]
    ]
  ]

  -- `Value`; `none` is the nil pointer before the first `Next`.
  unfoldable pub table_value : MemTableIterator → Option EventKey
  table_value mti = elim mti.cur [ none ↦ none | some e ↦ some e.key ]

  -- `Seek`, with `Find` of the skip list.
  unfoldable table_seek :
      (Items → EventKey → Option Element) → MemTableIterator → EventKey → MemTableIterator
  table_seek find mti key = elim (find mti.mt key) [
    | none ↦ record mti { end = true }
    | some found ↦ record mti { end = false; next = some found }
  ]

  -- The loop `for iter.Next() { iter.Value() }`, on fuel.
  unfoldable pub table_drain : ℕ → MemTableIterator → Option (List EventKey)
  unfolding table_next table_value
  table_drain zero mti = some []
  table_drain (suc f) mti =
      let (mti', more) = table_next mti in
      elim more [
        | false ↦ some []
        | true ↦ elim (table_value mti') [
          | none ↦ none
          | some key ↦ elim (table_drain f mti') [ none ↦ none | some keys ↦ some (key ∷ keys) ]
        ]
      ]
