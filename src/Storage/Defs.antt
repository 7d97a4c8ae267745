-- ===== src/Storage/Defs.antt =====
-- storage.go: the state that the workers share, and what they do to it.
use bitstar.Base.{
  ℕ, ◌+◌, Bool, false, ◌||◌, List, [], ◌∷◌, ◌++◌, Option, none, some, leb, ◌==◌, any, length,
  get_elem?, if◌then◌else◌,
}
use bitstar.Storage.Parts.{Parts}
use bitstar.Storage.Levels.{Levels, merge_level, in_levels}

-- `maxMemTableSize`.
abbrev max_mem_table_size : ℕ
max_mem_table_size = 16_384

-- The shared fields of `Storage`. The indexes of tables are never changed once made, so a pointer
-- is a place in the list of all that were made.
pub record Storage (P : Parts) : Type 0 where
  pub cur : P.Table
  pub indexes : List P.Index
  pub pen : List ℕ
  pub levels : Levels P.Index

module _ (P : Parts) where
  open P use {Table, Index, Item, Key}

  -- The stores of `Open`.
  unfoldable pub open_storage : Storage P
  open_storage = record {
    cur = P.new_mem_table;
    indexes = [];
    pen = [];
    levels = record { l0 = none; l1 = none; l2 = none; l3 = none };
  }

  -- `curTable.size() >= maxMemTableSize`.
  abbrev pub is_full : Table → Bool
  is_full t = leb max_mem_table_size (P.size t)

  -- The loop of `batchCreateEvents` over the items.
  unfoldable pub put_items : Table → List Item → Table
  put_items t [] = t
  put_items t (i ∷ is) = put_items (P.put_item t i) is

  -- `s.cur.Store(newTable)`.
  unfoldable pub swap_table : Storage P → Storage P
  swap_table s = record s { cur = P.new_mem_table }

  -- The store of the slice with one index more.
  unfoldable pub append_pending : Storage P → Index → Storage P
  append_pending s ri = record s {
    indexes = s.indexes ++ ri ∷ [];
    pen = s.pen ++ length s.indexes ∷ [];
  }

  -- `batchCreateEvents`, without other calls between its stores.
  unfoldable pub batch_create_events : Storage P → List Item → Option (Storage P)
  unfolding put_items swap_table append_pending
  batch_create_events s items =
      if is_full s.cur
      then elim (P.from_mem_table s.cur) [
        | none ↦ none
        | some ri ↦
            let t = append_pending (swap_table s) ri in
            some (record t { cur = put_items t.cur items })
      ]
      else some (record s { cur = put_items s.cur items })

  -- The slice of `writeWorker` without the first pointer that equals the one received.
  unfoldable pub remove_pending : ℕ → List ℕ → List ℕ
  remove_pending ri [] = []
  remove_pending ri (t ∷ ts) = let rest = remove_pending ri ts in if t == ri then ts else t ∷ rest

  -- `writeWorker`, when it receives from `compactDoneCh`.
  unfoldable pub compact_done : ℕ → Storage P → Storage P
  unfolding remove_pending
  compact_done ri s = record s { pen = remove_pending ri s.pen }

  -- `mergeLevel`, up to its send.
  unfoldable pub store_level : Index → Storage P → Storage P
  unfolding merge_level
  store_level ri s = record s { levels = merge_level P s.levels ri }

  -- Where `writeWorker` stands: at its select; between the stores of `batchCreateEvents`, with the
  -- old table and the items; behind the second store; or returned.
  pub data Writer : Type 0 where
    waiting : Writer
    swapped : Table → List Item → Writer
    stored : List Item → Writer
    returned : Writer

  -- Where `flushWorker` stands: at its select; in the loop over the pending indexes; at the send of
  -- `mergeLevel`; or returned.
  pub data Flusher : Type 0 where
    waiting : Flusher
    merging : List ℕ → Flusher
    sending : ℕ → List ℕ → Flusher
    returned : Flusher

  -- The shared fields, both workers, the counter `c`, and whether `stopCh` is closed.
  pub record System : Type 0 where
    pub storage : Storage P
    pub writer : Writer
    pub flusher : Flusher
    pub count : ℕ
    pub stop : Bool

  -- The start of the workers in `Open`.
  unfoldable pub start_system : System
  unfolding open_storage
  start_system = record {
    storage = open_storage;
    writer = Writer.waiting;
    flusher = Flusher.waiting;
    count = 0;
    stop = false;
  }

  -- `flushWorker`, when it receives from `compactCh`: every fourth time it merges.
  unfoldable pub compact : System → System
  compact s =
      if leb 4 (s.count + 1)
      then record s { count = 0; flusher = Flusher.merging s.storage.pen }
      else record s { count = s.count + 1 }

  -- Does the index at the place hold the key?
  abbrev pub at_place : List Index → Key → ℕ → Bool
  at_place indexes k a = elim (get_elem? indexes a) [ none ↦ false | some ri ↦ P.in_index ri k ]

  abbrev pub in_pending : Storage P → Key → Bool
  in_pending s k = any (at_place s.indexes k) s.pen

  -- What `ListEvents` looks at: the table, the pending indexes and the levels.
  abbrev pub is_visible : Storage P → Key → Bool
  is_visible s k = P.in_table s.cur k || in_pending s k || in_levels P s.levels k
