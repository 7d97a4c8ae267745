-- ===== src/Storage/Tables.antt =====
-- memtable.go: the tables over a skip list, and the items that storage.go writes to them.
use bitstar.Base.{
  ℕ, ◌≡◌, refl, ◌∙◌, Bool, true, false, ◌||◌, List, [], ◌∷◌, Option, none, some, arith, any,
  Ordering,
}
use bitstar.Keys.Defs.{EventKey, memtable_less_than, memtable_compare}
use bitstar.Keys.Order.{memtable_less_than-refines, compare_event_key_eq_iff}
use bitstar.Memtable.Defs.{Event}
use bitstar.Index.Defs.{event_key_from_proto}
use bitstar.Storage.SkipLists.{SkipLists, IsPut, put_in, replaced, behind}

-- `writeItem`, of the two forms that the handlers make: the key of an event at a timestamp with the
-- item of the event, or a key with the item of nil.
pub data WriteItem : Type 0 where
  write : Event → ℕ → WriteItem
  remove : EventKey → WriteItem

-- `wi.key` and `wi.item.event`.
unfoldable pub key_and_event : WriteItem → EventKey × Option Event
unfolding event_key_from_proto
key_and_event (write event ts) = (event_key_from_proto event ts false, some event)
key_and_event (remove key) = (key, none)

-- An item with an event has the start and the id of the event in its key.
abbrev pub IsKeyed : List (EventKey × Option Event) → Type 0
IsKeyed [] = Unit
IsKeyed ((key, none) ∷ items) = IsKeyed items
IsKeyed ((key, some e) ∷ items) = (key.start_time ≡ e.start_time) × (key.id ≡ e.id) × IsKeyed items

-- Keys with the same start, id and timestamp compare in the same way.
memtable_less_than_congruent :
    (a b k : EventKey)
    → a.start_time ≡ b.start_time
    → a.id ≡ b.id
    → a.timestamp ≡ b.timestamp
    → memtable_less_than a k ≡ memtable_less_than b k
unfolding memtable_less_than
memtable_less_than_congruent a b k start id ts = rw (start, id, ts) refl

eq_of_memtable_less_than :
    (a b : EventKey)
    → memtable_less_than a b ≡ Ordering.eq
    → (a.start_time ≡ b.start_time) × (a.id ≡ b.id) × (a.timestamp ≡ b.timestamp)
eq_of_memtable_less_than a b h =
    let parts = memtable_less_than-refines a b in
    let same = compare_event_key_eq_iff a b in
    let (start, id) = same.0 (ground (arith, parts)) in (start, id, ground (arith, parts))

module _ (L : SkipLists) where
  open L use {SkipList}

  -- Does the skip list take the keys for the same?
  abbrev pub same_version : EventKey → EventKey → Bool
  same_version k a = elim (memtable_compare L.less_than_func a k) [
    | Ordering.lt ↦ false
    | Ordering.eq ↦ true
    | Ordering.gt ↦ false
  ]

  pub same_version_congruent :
      (a b k : EventKey)
      → a.start_time ≡ b.start_time
      → a.id ≡ b.id
      → a.timestamp ≡ b.timestamp
      → same_version k a ≡ same_version k b
  unfolding memtable_compare
  same_version_congruent a b k start id ts =
      let turned = L.less_than_func-flip memtable_less_than a k in
      let turned' = L.less_than_func-flip memtable_less_than b k in
      let same = memtable_less_than_congruent a b k start id ts in
      ground (arith, turned, turned', same)

  pub any-IsPut :
      (key k : EventKey) (value : Option Event) {xs ys : List (EventKey × Option Event)}
      → IsPut (memtable_compare L.less_than_func) key value xs ys
      → any (λ i. same_version k i.0) ys ≡ (same_version k key || any (λ i. same_version k i.0) xs)
  unfolding memtable_compare
  any-IsPut key k value (put_in xs) = refl
  any-IsPut key k value (replaced old old_value xs e) =
      let turned = L.less_than_func-flip memtable_less_than old key in
      let equal : memtable_less_than old key ≡ Ordering.eq = ground (arith, turned, e) in
      let (start, id, ts) = eq_of_memtable_less_than old key equal in
      let same = same_version_congruent old key k start id ts in ground (arith, same)
  any-IsPut key k value (behind x s) = let rest = any-IsPut key k value s in ground (arith, rest)

  -- A table: its list is in the order of memtable.go, and its items are keyed.
  pub record IsTable (t : SkipList) : Type 0 where
    pub in_order : L.order t ≡ memtable_compare L.less_than_func
    pub keyed : IsKeyed (L.elements t)

  -- `newMemTable`.
  unfoldable pub new_mem_table : SkipList
  new_mem_table = L.new (memtable_compare L.less_than_func)

  -- `putItem`.
  unfoldable pub put_item : SkipList → WriteItem → SkipList
  unfolding key_and_event
  put_item t i = L.set t (key_and_event i).0 (key_and_event i).1

  pub new_mem_table-IsTable : IsTable new_mem_table
  unfolding new_mem_table
  new_mem_table-IsTable = record {
    in_order = L.order-new (memtable_compare L.less_than_func);
    keyed = rw (L.elements-new (memtable_compare L.less_than_func)) tt;
  }

  IsPut-IsKeyed :
      (i : WriteItem) {xs ys : List (EventKey × Option Event)}
      → IsPut (memtable_compare L.less_than_func) (key_and_event i).0 (key_and_event i).1 xs ys
      → IsKeyed xs
      → IsKeyed ys
  unfolding memtable_compare key_and_event
  IsPut-IsKeyed (write e ts) (put_in xs) h = (refl, refl, h)
  IsPut-IsKeyed (remove key) (put_in xs) h = h
  IsPut-IsKeyed (write e ts) (replaced old none xs same) h =
      let key = event_key_from_proto e ts false in
      let turned = L.less_than_func-flip memtable_less_than old key in
      let equal : memtable_less_than old key ≡ Ordering.eq = ground (arith, turned, same) in
      let (start, id, ts') = eq_of_memtable_less_than old key equal in (start, id, h)
  IsPut-IsKeyed (write e ts) (replaced old (some e') xs same) h =
      let key = event_key_from_proto e ts false in
      let turned = L.less_than_func-flip memtable_less_than old key in
      let equal : memtable_less_than old key ≡ Ordering.eq = ground (arith, turned, same) in
      let (start, id, ts') = eq_of_memtable_less_than old key equal in (start, id, h.2)
  IsPut-IsKeyed (remove key) (replaced old none xs same) h = h
  IsPut-IsKeyed (remove key) (replaced old (some e') xs same) h = h.2
  IsPut-IsKeyed i (behind (key, none) s) h = IsPut-IsKeyed i s h
  IsPut-IsKeyed i (behind (key, some e) s) h = (h.0, h.1, IsPut-IsKeyed i s h.2)

  pub put_item-IsTable : (t : SkipList) (i : WriteItem) → IsTable t → IsTable (put_item t i)
  unfolding put_item
  put_item-IsTable t i h =
      let (key, value) = key_and_event i in
      let done : IsPut (memtable_compare L.less_than_func) key value (L.elements t)
          (L.elements (L.set t key value)) =
        rw h.in_order at (L.elements-set t key value) in
      record {
        in_order = L.order-set t key value ∙ h.in_order;
        keyed = IsPut-IsKeyed i done h.keyed;
      }
