-- ===== src/Examples/Workers.antt =====
-- storage.go: small systems of workers, with lists of numbers for tables and indexes.
use bitstar.Base.{
  ℕ, ◌*◌, ◌≡◌, refl, true, false, List, [], ◌∷◌, ◌++◌, none, some, arith, elem, elem-append, ◌==◌,
  length,
}
use bitstar.Storage.Parts.{Parts}
use bitstar.Storage.Levels.{
  IsBelow, level_limit_0, level_limit_1, level_limit_2, merge_level, merge_level-IsBelow,
}
use bitstar.Storage.Defs.{Storage, System, Writer, Flusher, is_visible}
use bitstar.Storage.Steps.{Step, Steps}
use bitstar.Storage.Readers.{swap_hides}
use bitstar.Storage.Closing.{close_hangs, flusher_drains}

same_keys : (t ri : List ℕ) (k : ℕ) → some t ≡ some ri → elem k ri ≡ elem k t
same_keys t ri k h = ground arith

-- A table is full with one key, and an index is as large as the limit of level 0 with one key.
abbrev keys : Parts
keys = record {
  Item = ℕ;
  Key = ℕ;
  Table = List ℕ;
  Index = List ℕ;
  new_mem_table = [];
  size = λ t. 16_384 * length t;
  put_item = λ t i. i ∷ t;
  from_mem_table = λ t. some t;
  merge_two_indices = λ a b. a ++ b;
  cardinality = λ ri. 256_000 * length ri;
  writes = λ i k. k == i;
  in_table = λ t k. elem k t;
  in_index = λ ri k. elem k ri;
  in_table-new_mem_table = λ k. refl;
  in_table-put_item = λ t i k. refl;
  in_index-from_mem_table = same_keys;
  in_index-merge_two_indices = λ a b k. elem-append k a b;
}

-- Key 5 in a full table, key 6 in a pending index, key 7 in level 0.
abbrev busy : Storage keys
busy = record {
  cur = 5 ∷ [];
  indexes = (6 ∷ []) ∷ [];
  pen = 0 ∷ [];
  levels = record { l0 = some (7 ∷ []); l1 = none; l2 = none; l3 = none };
}

abbrev resting : System keys
resting = record {
  storage = busy;
  writer = Writer.waiting;
  flusher = Flusher.waiting;
  count = 0;
  stop = false;
}

abbrev at_work : System keys
at_work = record resting { flusher = Flusher.merging (0 ∷ []) }

merge_level-IsBelow_example :
    IsBelow keys level_limit_0 (merge_level keys busy.levels (9 ∷ [])).l0
    × IsBelow keys level_limit_1 (merge_level keys busy.levels (9 ∷ [])).l1
    × IsBelow keys level_limit_2 (merge_level keys busy.levels (9 ∷ [])).l2
merge_level-IsBelow_example = merge_level-IsBelow keys busy.levels (9 ∷ [])

swap_hides_example :
    (t : System keys) × Step keys resting t
    × (is_visible keys busy 5 ≡ true)
    × (is_visible keys t.storage 5 ≡ false)
    × (t.writer ≡ Writer.swapped (5 ∷ []) (8 ∷ []))
swap_hides_example = swap_hides keys resting (8 ∷ []) 5 refl refl refl refl

close_hangs_example :
    (t : System keys) × Steps keys at_work t
    × (t.stop ≡ true)
    × ((u : System keys) → Steps keys t u → u.flusher ≡ Flusher.sending 0 [])
close_hangs_example = close_hangs keys at_work 0 [] (6 ∷ []) refl refl refl

flusher_drains_example :
    (t : System keys) × Steps keys at_work t
    × (t.flusher ≡ Flusher.waiting)
    × (t.writer ≡ Writer.waiting)
flusher_drains_example = flusher_drains keys at_work ((6 ∷ [], refl), tt) refl (λ e. absurd (cc e))
