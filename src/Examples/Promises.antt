-- ===== src/Examples/Promises.antt =====
-- storage.go over the memtables and indexes: a small skip list, and a storage with one event.
use bitstar.Base.{
  ◌≡◌, ◌↔◌, refl, true, false, ◌||◌, List, [], ◌∷◌, Option, none, some, length, any, Ordering, flip,
  codes, arith,
}
use bitstar.Dense.{dense}
use bitstar.Keys.Defs.{EventKey, memtable_compare}
use bitstar.Memtable.Defs.{Event}
use bitstar.Index.Defs.{new_roaring_index}
use bitstar.Index.Bounded.{new_roaring_index-IsBounded}
use bitstar.Index.Returns.{is_tombstone}
use bitstar.Index.Merge.Defs.{merge_two_indices}
use bitstar.Storage.SkipLists.{SkipLists, IsPut, put_in, replaced, behind}
use bitstar.Storage.Tables.{WriteItem, write, remove, key_and_event, put_item, new_mem_table}
use bitstar.Storage.Actual.{parts}
use bitstar.Storage.Levels.{Levels, merge_ptr, merge_level, in_levels}
use bitstar.Storage.Defs.{
  Storage, System, Flusher, start_system, open_storage, is_full, put_items, is_visible, in_pending,
  batch_create_events,
}
use bitstar.Storage.Steps.{Steps, here, next, put, tick, finish}
use bitstar.Storage.Promises.{reader_finds, batch_create_events_lem, merge_level_lem}

abbrev Elements : Type 0
Elements = List (EventKey × Option Event)

abbrev set_in : (EventKey → EventKey → Ordering) → EventKey → Option Event → Elements → Elements
set_in order key value [] = (key, value) ∷ []
set_in order key value ((k, v) ∷ xs) =
    let rest = set_in order key value xs in
    elim (order k key) [
      | Ordering.lt ↦ (k, v) ∷ rest
      | Ordering.eq ↦ (k, value) ∷ xs
      | Ordering.gt ↦ (key, value) ∷ (k, v) ∷ xs
    ]

set_in-IsPut :
    (order : EventKey → EventKey → Ordering) (key : EventKey) (value : Option Event) (xs : Elements)
    → IsPut order key value xs (set_in order key value xs)
set_in-IsPut order key value [] = put_in []
set_in-IsPut order key value ((k, v) ∷ xs) =
    by_order (set_in-IsPut order key value xs) (order k key) refl
  where
    by_order :
        IsPut order key value xs (set_in order key value xs)
        → (o : Ordering) → order k key ≡ o
        → IsPut order key value ((k, v) ∷ xs) (set_in order key value ((k, v) ∷ xs))
    by_order later Ordering.lt e =
        let now : set_in order key value ((k, v) ∷ xs) ≡ (k, v) ∷ set_in order key value xs =
          ground (arith, e) in
        rw now (behind (k, v) later)
    by_order later Ordering.eq e =
        let now : set_in order key value ((k, v) ∷ xs) ≡ (k, value) ∷ xs = ground (arith, e) in
        rw now (replaced k v xs e)
    by_order later Ordering.gt e =
        let now : set_in order key value ((k, v) ∷ xs) ≡ (key, value) ∷ (k, v) ∷ xs =
          ground (arith, e) in
        rw now (put_in ((k, v) ∷ xs))

abbrev lists : SkipLists
lists = record {
  SkipList = (EventKey → EventKey → Ordering) × Elements;
  less_than_func = λ f a b. flip (f a b);
  new = λ f. (f, []);
  len = λ t. length t.1;
  set = λ t k v. (t.0, set_in t.0 k v t.1);
  order = λ t. t.0;
  elements = λ t. t.1;
  less_than_func-flip = λ f a b. refl;
  order-new = λ f. refl;
  order-set = λ t k v. refl;
  elements-new = λ f. refl;
  elements-set = λ t k v. set_in-IsPut t.0 k v t.1;
  len-elements = λ t. refl;
}

abbrev outage : Event
outage = record {
  type_code = codes "dc";
  external_id = codes "1";
  id = codes "a";
  start_time = record { sec = 62_135_596_805; nsec = 0 };
  end_time = record { sec = 62_135_596_806; nsec = 0 };
  tags = codes "x" ∷ [];
  annotations = [];
}

abbrev outage_key : EventKey
outage_key = record {
  resource_type_code = codes "dc";
  resource_external_id = codes "1";
  start_time = record { sec = 62_135_596_805; nsec = 0 };
  id = codes "a";
  timestamp = 7;
  is_deleted = false;
  local = false;
}

abbrev started : System (parts dense lists)
started = start_system (parts dense lists)

-- The system once the event is written, and when the timer has started the flusher.
abbrev filled : System (parts dense lists)
filled = record started {
  storage = record started.storage {
    cur = put_items (parts dense lists) started.storage.cur (write outage 7 ∷ []);
  };
}

abbrev flushing : System (parts dense lists)
flushing = record filled { flusher = Flusher.merging filled.storage.pen }

abbrev resting : System (parts dense lists)
resting = record flushing { flusher = Flusher.waiting }

filling : Steps (parts dense lists) started filled
unfolding start_system open_storage new_mem_table
filling = next here (put started (write outage 7 ∷ []) refl refl)

reader_finds_example :
    ((parts dense lists).in_table filled.storage.cur outage_key
      || in_pending (parts dense lists) flushing.storage outage_key
      || in_levels (parts dense lists) resting.storage.levels outage_key)
    ≡ true
unfolding start_system open_storage put_items put_item new_mem_table key_and_event memtable_compare
reader_finds_example =
    reader_finds dense lists filled flushing resting outage_key filling
      (next here (tick filled refl)) (next here (finish flushing refl)) refl

-- The event, and the deletion of its key.
abbrev requested : List WriteItem
requested = write outage 7 ∷ remove outage_key ∷ []

batch_create_events_lem_example :
    ((batch_create_events (parts dense lists) filled.storage requested ≡ none) ↔ (
      (is_full (parts dense lists) filled.storage.cur ≡ true)
      × (any is_tombstone (lists.elements filled.storage.cur.0) ≡ true)))
    × ((s' : Storage (parts dense lists)) (k : EventKey)
        → batch_create_events (parts dense lists) filled.storage requested ≡ some s'
        → is_visible (parts dense lists) s' k ≡ (
            any (λ i. (parts dense lists).writes i k) requested
            || is_visible (parts dense lists) filled.storage k))
batch_create_events_lem_example = batch_create_events_lem dense lists filled requested filling

-- The index of the event.
abbrev made : (parts dense lists).Index
made = elim ((parts dense lists).from_mem_table filled.storage.cur) [
  | none ↦ (new_roaring_index dense, new_roaring_index-IsBounded dense)
  | some ri ↦ ri
]

abbrev levels : Levels ((parts dense lists).Index)
levels = record { l0 = some made; l1 = none; l2 = none; l3 = none }

merge_level_lem_example :
    (in_levels (parts dense lists) (merge_level (parts dense lists) levels made) outage_key ≡ (
      in_levels (parts dense lists) levels outage_key
      || (parts dense lists).in_index made outage_key))
    × ((a b : (parts dense lists).Index)
        → (out : (parts dense lists).Index) × (merge_ptr (parts dense lists) (some a) (some b)
            ≡ some out)
          × (merge_two_indices dense a.0 b.0 ≡ some out.0))
merge_level_lem_example = merge_level_lem dense lists levels made outage_key
