-- ===== src/Keys/Order.antt =====
-- The orders on event keys: `compareEventKey` and what the skip list and the indexes make of it.
use bitstar.Base.{
  ◌≡◌, ◌≢◌, ◌≤◌, refl, sym, ap, ◌∙◌, arith, compare, Ordering, compare_bytes, then_compare, flip,
  compare_bytes-flip, compare_bytes_self, compare_bytes_trans, eq_of_compare_bytes, ◌↔◌,
}
use bitstar.Keys.Defs.{Time, compare_time, EventKey, compare_event_key, memtable_less_than}

compare_time-flip : (a b : Time) → compare_time b a ≡ flip (compare_time a b)
unfolding compare_time
compare_time-flip a b = ground arith

compare_time_trans :
    (a b c : Time)
    → compare_time a b ≡ Ordering.gt
    → compare_time b c ≡ Ordering.gt
    → compare_time a c ≡ Ordering.gt
unfolding compare_time
compare_time_trans a b c h k = ground arith

eq_of_compare_time : (a b : Time) → compare_time a b ≡ Ordering.eq → a ≡ b
unfolding compare_time
eq_of_compare_time a b h = ground arith

compare_time_self : (a : Time) → compare_time a a ≡ Ordering.eq
unfolding compare_time
compare_time_self a = ground arith

compare_event_key_then :
    (a b : EventKey)
    → compare_event_key a b
      ≡ then_compare (compare_time a.start_time b.start_time) (compare_bytes a.id b.id)
unfolding compare_event_key
compare_event_key_then a b = ground arith

then_flip : (o p : Ordering) → then_compare (flip o) (flip p) ≡ flip (then_compare o p)
then_flip Ordering.lt p = refl
then_flip Ordering.eq p = refl
then_flip Ordering.gt p = refl

-- Swapping the arguments of `compareEventKey` turns its result round.
pub compare_event_key-flip : (a b : EventKey) → compare_event_key b a ≡ flip (compare_event_key a b)
compare_event_key-flip a b =
    compare_event_key_then b a
    ∙ ap (λ o. then_compare o (compare_bytes b.id a.id))
        (compare_time-flip a.start_time b.start_time)
    ∙ ap (then_compare (flip (compare_time a.start_time b.start_time)))
        (compare_bytes-flip a.id b.id)
    ∙ then_flip (compare_time a.start_time b.start_time) (compare_bytes a.id b.id)
    ∙ ap flip (sym (compare_event_key_then a b))

-- Keys compare as equal exactly when the start and the id are the same.
pub compare_event_key_eq_iff :
    (a b : EventKey)
    → (compare_event_key a b ≡ Ordering.eq) ↔ (a.start_time ≡ b.start_time) × (a.id ≡ b.id)
compare_event_key_eq_iff a b = (
  λ h.
      let parts = compare_event_key_then a b in
      (
        eq_of_compare_time a.start_time b.start_time (ground (arith, parts)),
        eq_of_compare_bytes a.id b.id (ground (arith, parts)),
      ),
  λ h.
      compare_event_key_then a b
      ∙ rw (h.0, h.1) (rw (compare_time_self b.start_time) (compare_bytes_self b.id)),
)

-- `compareEventKey` is transitive: a key that is greater than a greater key is greater.
compare_event_key_trans :
    (a b c : EventKey)
    → compare_event_key a b ≡ Ordering.gt
    → compare_event_key b c ≡ Ordering.gt
    → compare_event_key a c ≡ Ordering.gt
compare_event_key_trans a b c h k = ground (
  arith,
  compare_event_key_then a b,
  compare_event_key_then b c,
  compare_event_key_then a c,
  compare_time_trans a.start_time b.start_time c.start_time,
  compare_bytes_trans a.id b.id c.id,
  eq_of_compare_time a.start_time b.start_time,
  eq_of_compare_time b.start_time c.start_time,
  eq_of_compare_bytes a.id b.id,
  eq_of_compare_bytes b.id c.id,
)

-- The function for the skip list refines `compareEventKey` by the timestamp.
pub memtable_less_than-refines :
    (a b : EventKey)
    → memtable_less_than a b
      ≡ then_compare (compare_event_key a b) (compare a.timestamp b.timestamp)
unfolding compare_event_key memtable_less_than
memtable_less_than-refines a b = ground arith

-- The order in which the results of a query come, the latest first: `a` does not come after `b`.
abbrev pub NotAfter : EventKey → EventKey → Type 0
NotAfter a b = memtable_less_than a b ≢ Ordering.lt

pub NotAfter-self : (a : EventKey) → NotAfter a a
NotAfter-self a h = ground (
  arith,
  memtable_less_than-refines a a,
  compare_event_key_then a a,
  compare_time_self a.start_time,
  compare_bytes_self a.id,
)

-- Keys that compare as equal compare alike with every other.
congruent :
    (a b c : EventKey)
    → compare_event_key a b ≡ Ordering.eq
    → (compare_event_key a c ≡ compare_event_key b c)
      × (compare_event_key c a ≡ compare_event_key c b)
congruent a b c h =
    let parts = (compare_event_key_eq_iff a b).0 h in
    (
      compare_event_key_then a c ∙ rw (parts.0, parts.1) (sym (compare_event_key_then b c)),
      compare_event_key_then c a ∙ rw (parts.0, parts.1) (sym (compare_event_key_then c b)),
    )

pub NotAfter-trans : (a b c : EventKey) → NotAfter a b → NotAfter b c → NotAfter a c
NotAfter-trans a b c h k l = ground (
  arith,
  memtable_less_than-refines a b,
  memtable_less_than-refines b c,
  memtable_less_than-refines a c,
  compare_event_key_trans a b c,
  congruent a b c,
  congruent b c a,
)

-- A key that compares as greater, or as equal with no smaller timestamp, is not after the other.
pub NotAfter-of_gt : (a b : EventKey) → compare_event_key a b ≡ Ordering.gt → NotAfter a b
NotAfter-of_gt a b h l = ground (arith, memtable_less_than-refines a b)

pub NotAfter-of_lt : (a b : EventKey) → compare_event_key b a ≡ Ordering.lt → NotAfter a b
NotAfter-of_lt a b h l = ground (arith, memtable_less_than-refines a b, compare_event_key-flip b a)

pub NotAfter-of_eq :
    (a b : EventKey)
    → compare_event_key a b ≡ Ordering.eq
    → b.timestamp ≤ a.timestamp
    → NotAfter a b
NotAfter-of_eq a b h le l = ground (arith, memtable_less_than-refines a b)
