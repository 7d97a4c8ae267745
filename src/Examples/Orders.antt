-- ===== src/Examples/Orders.antt =====
-- compare.go and iterator_merge.go: three versions of two events, and a merge of two iterators.
use bitstar.Base.{
  ◌<◌, ℕ, ◌≡◌, ◌⊎◌, refl, Bool, true, false, List, [], ◌∷◌, arith, Ordering, codes, flip,
  compare_bytes,
}
use bitstar.Keys.Defs.{EventKey, compare_time, compare_event_key}
use bitstar.Iterators.Merge.{merge_value, Iterator, MergeIterator, merge_next}
use bitstar.Storage.Pages.{
  page, panicked, list_page, merge_drain, list_page_lem, list_page-panicked,
}
use bitstar.Base.{◌↔◌, ◌+◌, ◌^◌, ◌≤◌, some, arith}
use bitstar.Iterators.MergeOrder.{
  First, Advanced, AllEnded, looked_at, merge_next_lem, merge_next_repeats,
}

-- The key of an event at a second, with a timestamp.
abbrev key : ℕ → ℕ → EventKey
key sec ts = record {
  resource_type_code = codes "host";
  resource_external_id = codes "h1";
  start_time = record { sec = sec; nsec = 0 };
  id = codes "e1";
  timestamp = ts;
  is_deleted = false;
  local = false;
}

abbrev turned : (EventKey → EventKey → Ordering) → EventKey → EventKey → Ordering
turned f a b = flip (f a b)

-- A cursor over a list of keys.
abbrev first_key : List EventKey → EventKey
first_key [] = key 0 0
first_key (k ∷ ks) = k

abbrev rest_keys : List EventKey → List EventKey
rest_keys [] = []
rest_keys (k ∷ ks) = ks

abbrev has_key : List EventKey → Bool
has_key [] = false
has_key (k ∷ ks) = true

unfoldable seek_key : List EventKey → EventKey → List EventKey
unfolding compare_event_key
seek_key [] target = []
seek_key (k ∷ ks) target =
    let rest = seek_key ks target in
    elim (compare_event_key k target) [ Ordering.gt ↦ rest | _ ↦ k ∷ ks ]

abbrev cursor : Iterator (List EventKey)
cursor = record { next = rest_keys; value = first_key; seek = seek_key; valid = has_key }

-- An event at second 1 with the timestamp 5, and the same event with the timestamp 7.
abbrev merging : MergeIterator (List EventKey)
merging = record {
  init = false;
  iterators = (key 1 5 ∷ []) ∷ (key 1 7 ∷ []) ∷ [];
  current_key = key 0 0;
  end = false;
}

merge_next_lem_example :
    let (mi', more) = merge_next cursor (key 0 0) merging in
    ((more ≡ false)
      × (mi'.end ≡ true)
      × ((false ≡ true) ⊎ AllEnded cursor (looked_at cursor merging)))
    ⊎ ((more ≡ true)
        × (mi'.end ≡ false)
        × (false ≡ false)
        × First cursor mi'.current_key (looked_at cursor merging)
        × Advanced cursor mi'.current_key (looked_at cursor merging) mi'.iterators)
merge_next_lem_example = merge_next_lem cursor (key 0 0) merging

same_event : compare_event_key (key 1 7) (key 1 5) ≡ Ordering.eq
unfolding compare_event_key compare_time compare_bytes
same_event = refl

merge_next_repeats_example :
    let (mi', more) = merge_next cursor (key 0 0) merging in
    let (mi'', more') = merge_next cursor (key 0 0) mi' in
    (more ≡ true) × (mi'.current_key ≡ key 1 7) × (more' ≡ true) × (mi''.current_key ≡ key 1 5)
merge_next_repeats_example =
    merge_next_repeats cursor (key 0 0) merging (key 1 5 ∷ []) (key 1 7 ∷ []) refl refl refl refl
      refl same_event (omega arith) refl

merging-drained : merge_drain cursor (key 0 0) 3 merging ≡ some (key 1 7 ∷ key 1 5 ∷ [])
unfolding merge_next merge_value compare_event_key compare_time compare_bytes
merging-drained = refl

-- A page of one key, with the key behind it as the token.
list_page_lem_example :
    list_page cursor (key 0 0) 3 1 merging
    ≡ page (record { keys = key 1 7 ∷ []; next_page_token = some (key 1 5) })
list_page_lem_example =
    list_page_lem cursor (key 0 0) 3 1 merging (key 1 7 ∷ key 1 5 ∷ []) (omega arith)
      merging-drained

-- A request for the largest `int32`.
list_page-panicked_example :
    (list_page cursor (key 0 0) 3 2147483647 merging ≡ panicked)
    ↔ ((2 ^ 31 ≤ 2147483647 + 1) × (2147483647 + 1 < 2 ^ 32))
list_page-panicked_example =
    list_page-panicked cursor (key 0 0) 3 2147483647 merging (key 1 7 ∷ key 1 5 ∷ []) (omega arith)
      merging-drained
