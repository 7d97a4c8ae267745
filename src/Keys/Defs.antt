-- ===== src/Keys/Defs.antt =====
-- index.go, `EventKey`, and compare.go: the orders on event keys.
use bitstar.Base.{
  ℕ, ◌+◌, ◌-◌, ◌%◌, ◌^◌, Bool, ◌==◌, compare, Ordering, ◌&&◌, Bytes, same, same_bytes,
  compare_bytes, then_compare,
}

-- `time.Time`, as the seconds since the year 1 and the nanoseconds.
pub record Time : Type 0 where
  pub sec : ℕ
  pub nsec : ℕ

-- `a.Compare(b)`, which `Before` and `After` agree with.
unfoldable pub compare_time : Time → Time → Ordering
compare_time a b = then_compare (compare a.sec b.sec) (compare a.nsec b.nsec)

-- `Unix`, as a bit pattern: 62135596800 seconds lie between the year 1 and 1970.
unfoldable pub unix : Time → ℕ
unix t = (t.sec + 2 ^ 64 - 62135596800) % 2 ^ 64

pub record EventKey : Type 0 where
  pub resource_type_code : Bytes
  pub resource_external_id : Bytes
  pub start_time : Time
  pub id : Bytes
  pub timestamp : ℕ
  pub is_deleted : Bool
  -- The location of `StartTime`: the local zone, or UTC.
  pub local : Bool

-- `EventKey` as a key of a Go map, which compares field by field, the location of the start too.
unfoldable pub same_key : EventKey → EventKey → Bool
unfolding same_bytes
same_key a b =
    same_bytes a.resource_type_code b.resource_type_code
    && same_bytes a.resource_external_id b.resource_external_id
    && (a.start_time.sec == b.start_time.sec && a.start_time.nsec == b.start_time.nsec)
    && same_bytes a.id b.id
    && a.timestamp == b.timestamp
    && same a.is_deleted b.is_deleted
    && same a.local b.local

-- `compareEventKey`, with -1, 0 and 1 as orders.
unfoldable pub compare_event_key : EventKey → EventKey → Ordering
unfolding compare_time compare_bytes
compare_event_key a b = elim (compare_time a.start_time b.start_time) [
  | Ordering.gt ↦ Ordering.gt
  | Ordering.lt ↦ Ordering.lt
  | Ordering.eq ↦ elim (compare_bytes a.id b.id) [
    | Ordering.gt ↦ Ordering.gt
    | Ordering.lt ↦ Ordering.lt
    | Ordering.eq ↦ Ordering.eq
  ]
]

-- `compareEventKeyTimestamp`.
unfoldable pub compare_event_key_timestamp : EventKey → EventKey → Ordering
unfolding compare_time compare_bytes
compare_event_key_timestamp a b = elim (compare_time a.start_time b.start_time) [
  | Ordering.gt ↦ Ordering.lt
  | Ordering.lt ↦ Ordering.gt
  | Ordering.eq ↦ elim (compare_bytes a.id b.id) [
    | Ordering.gt ↦ Ordering.lt
    | Ordering.lt ↦ Ordering.gt
    | Ordering.eq ↦ elim (compare a.timestamp b.timestamp) [
      | Ordering.lt ↦ Ordering.gt
      | Ordering.gt ↦ Ordering.lt
      | Ordering.eq ↦ Ordering.eq
    ]
  ]
]

-- memtable.go: the function that `newMemTable` hands to `skiplist.LessThanFunc`.
unfoldable pub memtable_less_than : EventKey → EventKey → Ordering
unfolding compare_time compare_bytes
memtable_less_than a b = elim (compare_time a.start_time b.start_time) [
  | Ordering.gt ↦ Ordering.gt
  | Ordering.lt ↦ Ordering.lt
  | Ordering.eq ↦ elim (compare_bytes a.id b.id) [
    | Ordering.gt ↦ Ordering.gt
    | Ordering.lt ↦ Ordering.lt
    | Ordering.eq ↦ elim (compare a.timestamp b.timestamp) [
      | Ordering.lt ↦ Ordering.lt
      | Ordering.gt ↦ Ordering.gt
      | Ordering.eq ↦ Ordering.eq
    ]
  ]
]

-- The comparison of the skip list: `less_than_func` is `skiplist.LessThanFunc`.
unfoldable pub memtable_compare :
    ((EventKey → EventKey → Ordering) → EventKey → EventKey → Ordering)
    → EventKey
    → EventKey
    → Ordering
unfolding memtable_less_than
memtable_compare less_than_func a b = less_than_func memtable_less_than a b
