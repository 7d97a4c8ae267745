-- ===== src/Examples/Merges.antt =====
-- index.go: the merge of two indexes with one event each.
use bitstar.Base.{ℕ, ◌≡◌, refl, true, false, [], ◌∷◌, some, arith, codes, lookup_by, ◌<◌}
use bitstar.Dense.{dense}
use bitstar.Dense.Bits.{Bits, contains}
use bitstar.Bsi.Defs.{Bsi}
use bitstar.Keys.Defs.{EventKey}
use bitstar.Index.Defs.{RoaringIndex}
use bitstar.Index.Merge.Defs.{merge_two_indices}
use bitstar.Index.Merge.Carried.{IsMergeable, IsIndexMerge, merge_two_indices-IsIndexMerge}

abbrev outage_key : EventKey
outage_key = record {
  resource_type_code = codes "host";
  resource_external_id = codes "h1";
  start_time = record { sec = 62135596801; nsec = 0 };
  id = codes "e1";
  timestamp = 7;
  is_deleted = false;
  local = false;
}

abbrev quiet_key : EventKey
quiet_key = record outage_key { id = codes "e2" }

-- The value 1 in row 0.
abbrev one_time : Bsi Bits
one_time = record {
  b_a = (true ∷ []) ∷ [];
  e_bm = true ∷ [];
  max_value = 0;
  min_value = 0;
  run_optimized = false;
}

abbrev with_key : EventKey → RoaringIndex Bits
with_key key = record {
  all = true ∷ [];
  start_time = one_time;
  end_time = one_time;
  tags = (codes "a", true ∷ []) ∷ [];
  annotations = [];
  keys = key ∷ [];
  indexes = (key, 0) ∷ [];
}

first_row : (c : ℕ) → contains (true ∷ []) c ≡ true → c < 1
first_row c h = unfold contains in ground arith

with_key-IsMergeable : (key : EventKey) → IsMergeable dense (with_key key)
with_key-IsMergeable key = record {
  tag_rows = (first_row, unfold lookup_by in refl, tt);
  annotation_rows = tt;
  start_rows = (first_row, tt);
  end_rows = (first_row, tt);
  narrow_start = omega arith;
  narrow_end = omega arith;
  index_rows = (omega arith, tt);
}

merge_two_indices-IsIndexMerge_example :
    (out : RoaringIndex Bits) × (merge_two_indices dense (with_key outage_key) (with_key quiet_key)
      ≡ some out)
    × IsIndexMerge dense (with_key outage_key) (with_key quiet_key) out
merge_two_indices-IsIndexMerge_example =
    merge_two_indices-IsIndexMerge dense (with_key outage_key) (with_key quiet_key)
      (with_key-IsMergeable outage_key) (with_key-IsMergeable quiet_key) (omega arith)
