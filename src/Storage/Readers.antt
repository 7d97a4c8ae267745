-- ===== src/Storage/Readers.antt =====
-- `ListEvents` loads the table, the pending indexes and the levels one after the other, while the
-- workers run: what it sees, and what it misses while a full table is on its way.
use bitstar.Base.{◌≡◌, refl, true, false, ◌||◌, List, arith, Bool-cases, inl, inr}
use bitstar.Storage.Parts.{Parts}
use bitstar.Storage.Levels.{in_levels}
use bitstar.Storage.Defs.{System, Writer, in_pending, is_visible, is_full, swap_table}
use bitstar.Storage.Steps.{Step, swap, Steps, here, next}
use bitstar.Storage.Coherent.{IsCoherent, Step-IsCoherent}
use bitstar.Storage.Visible.{is_stored, Step-in_levels, Step-is_stored}

module _ (P : Parts) where
  open P use {Table, Index, Item, Key}

  Steps-in_levels :
      {s t : System P} (k : Key)
      → Steps P s t
      → in_levels P s.storage.levels k ≡ true
      → in_levels P t.storage.levels k ≡ true
  Steps-in_levels k here h = h
  Steps-in_levels k (next run step) h = Step-in_levels P k step (Steps-in_levels k run h)

  Steps-is_stored :
      {s t : System P} (k : Key)
      → Steps P s t
      → IsCoherent P s
      → (IsCoherent P t) × (is_stored P s.storage k ≡ true → is_stored P t.storage k ≡ true)
  Steps-is_stored k here c = (c, λ h. h)
  Steps-is_stored k (next run step) c =
      let (c', kept) = Steps-is_stored k run c in
      (Step-IsCoherent P step c', λ h. Step-is_stored P k step c' (kept h))

  -- A key that is visible when a reader loads the table is seen by the reader, which loads the
  -- pending indexes and then the levels any number of steps later: compaction hides nothing.
  pub reader_sees :
      (a b c : System P) (k : Key)
      → IsCoherent P a
      → Steps P a b
      → Steps P b c
      → is_visible P a.storage k ≡ true
      → (P.in_table a.storage.cur k || in_pending P b.storage k || in_levels P c.storage.levels k)
        ≡ true
  reader_sees a b c k coherent run run' visible =
      let (later, kept) = Steps-is_stored k run coherent in
      elim (Bool-cases (P.in_table a.storage.cur k)) [
        | inl inside ↦ ground arith
        | inr outside ↦
            let stored' : is_stored P b.storage k ≡ true = kept (ground arith) in
            elim (Bool-cases (in_pending P b.storage k)) [
              | inl pending ↦ ground arith
              | inr merged ↦ let at_end = Steps-in_levels k run' (ground arith) in ground arith
            ]
      ]

  -- While a full table is swapped out its events are in none of the three: a key that only the
  -- table holds is hidden by the first store of `batchCreateEvents`, though it was written before.
  pub swap_hides :
      (s : System P) (items : List Item) (k : Key)
      → s.writer ≡ Writer.waiting
      → is_full P s.storage.cur ≡ true
      → P.in_table s.storage.cur k ≡ true
      → is_stored P s.storage k ≡ false
      → (t : System P) × Step P s t
        × (is_visible P s.storage k ≡ true)
        × (is_visible P t.storage k ≡ false)
        × (t.writer ≡ Writer.swapped s.storage.cur items)
  swap_hides s items k w full inside absent = (
    record s { storage = swap_table P s.storage; writer = Writer.swapped s.storage.cur items },
    swap s items w full,
    ground arith,
    unfold swap_table in ground (arith, P.in_table-new_mem_table k),
    refl,
  )
