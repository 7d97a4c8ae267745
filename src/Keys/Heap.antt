-- ===== src/Keys/Heap.antt =====
-- compare.go, `eventKeyMinHeap`: the slice behind `container/heap`.
use bitstar.Base.{
  ℕ, ◌-◌, Bool, true, false, List, [], ◌∷◌, ◌++◌, Option, none, some, Ordering, length, get_elem?,
  set, take, compare_bytes,
}
use bitstar.Keys.Defs.{EventKey, compare_time}

-- `Len`.
unfoldable heap_len : List EventKey → ℕ
heap_len h = length h

-- `Less`; `none` is the panic of an index out of range.
unfoldable heap_less : List EventKey → ℕ → ℕ → Option Bool
unfolding compare_time compare_bytes
heap_less h i j = elim (get_elem? h i) [
  | none ↦ none
  | some a ↦ elim (get_elem? h j) [
    | none ↦ none
    | some b ↦ elim (compare_time a.start_time b.start_time) [
      | Ordering.lt ↦ some true
      | Ordering.gt ↦ some false
      | Ordering.eq ↦ elim (compare_bytes a.id b.id) [ Ordering.lt ↦ some true | _ ↦ some false ]
    ]
  ]
]

-- `Swap`.
unfoldable heap_swap : List EventKey → ℕ → ℕ → Option (List EventKey)
heap_swap h i j = elim (get_elem? h i) [
  | none ↦ none
  | some a ↦ elim (get_elem? h j) [ none ↦ none | some b ↦ some (set (set h i b) j a) ]
]

-- `Push`.
unfoldable heap_push : List EventKey → EventKey → List EventKey
heap_push h x = h ++ x ∷ []

-- `Pop`.
unfoldable heap_pop : List EventKey → Option (EventKey × List EventKey)
heap_pop h = elim (get_elem? h (length h - 1)) [
  | none ↦ none
  | some x ↦ some (x, take (length h - 1) h)
]
