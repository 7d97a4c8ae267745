-- ===== src/Storage/Parts.antt =====
-- What storage.go uses of a memtable and of an index: the calls, and which keys they hold. Actual has
-- the memtables and the indexes of the program as its instance.
use bitstar.Base.{ℕ, ◌≡◌, Bool, false, ◌||◌, Option, some}

pub record Parts : Type 1 where
  -- A write item and the key of an event version.
  pub Item : Type 0
  pub Key : Type 0
  pub Table : Type 0
  pub Index : Type 0
  -- `newMemTable`, `size`, `putItem` and `fromMemTable`, where `none` is its panic.
  pub new_mem_table : Table
  pub size : Table → ℕ
  pub put_item : Table → Item → Table
  pub from_mem_table : Table → Option Index
  -- `mergeTwoIndices` on two indexes that are there, and `all.GetCardinality()`.
  pub merge_two_indices : Index → Index → Index
  pub cardinality : Index → ℕ
  pub writes : Item → Key → Bool
  pub in_table : Table → Key → Bool
  pub in_index : Index → Key → Bool
  pub in_table-new_mem_table : (k : Key) → in_table new_mem_table k ≡ false
  pub in_table-put_item :
      (t : Table) (i : Item) (k : Key) → in_table (put_item t i) k ≡ (writes i k || in_table t k)
  pub in_index-from_mem_table :
      (t : Table) (ri : Index) (k : Key) → from_mem_table t ≡ some ri → in_index ri k ≡ in_table t k
  pub in_index-merge_two_indices :
      (a b : Index) (k : Key) → in_index (merge_two_indices a b) k ≡ (in_index a k || in_index b k)
