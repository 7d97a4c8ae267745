-- ===== src/Storage/Steps.antt =====
-- The steps of the workers of storage.go, in every order in which they can come.
use bitstar.Base.{ℕ, ◌≡◌, true, false, List, [], ◌∷◌, some, get_elem?}
use bitstar.Storage.Parts.{Parts}
use bitstar.Storage.Defs.{
  System, Writer, Flusher, is_full, put_items, swap_table, append_pending, compact_done,
  store_level, compact,
}

module _ (P : Parts) where
  -- A store or a channel operation of one of the workers, of `Close`, or the timer.
  pub data Step : System P → System P → Type 0 where
    -- `batchCreateEvents` on a table with room.
    put :
        (s : System P) (items : List P.Item)
        → s.writer ≡ Writer.waiting
        → is_full P s.storage.cur ≡ false
        → Step s (record s { storage = record s.storage { cur = put_items P s.storage.cur items } })
    -- `batchCreateEvents` on a full table: the first store, the second store, the send to
    -- `compactCh` that succeeds or not, and the items.
    swap :
        (s : System P) (items : List P.Item)
        → s.writer ≡ Writer.waiting
        → is_full P s.storage.cur ≡ true
        → Step s (record s {
          storage = swap_table P s.storage;
          writer = Writer.swapped s.storage.cur items;
        })
    store :
        (s : System P) (old : P.Table) (items : List P.Item) (ri : P.Index)
        → s.writer ≡ Writer.swapped old items
        → P.from_mem_table old ≡ some ri
        → Step s
            (record s { storage = append_pending P s.storage ri; writer = Writer.stored items })
    signal :
        (s : System P) (items : List P.Item)
        → s.writer ≡ Writer.stored items
        → s.flusher ≡ Flusher.waiting
        → Step s (
            compact P (record s {
              storage = record s.storage { cur = put_items P s.storage.cur items };
              writer = Writer.waiting;
            }))
    no_signal :
        (s : System P) (items : List P.Item)
        → s.writer ≡ Writer.stored items
        → Step s (record s {
          storage = record s.storage { cur = put_items P s.storage.cur items };
          writer = Writer.waiting;
        })
    -- `flushWorker`: the timer, a round of the loop, its end.
    tick :
        (s : System P)
        → s.flusher ≡ Flusher.waiting
        → Step s (record s { flusher = Flusher.merging s.storage.pen })
    merge :
        (s : System P) (a : ℕ) (rest : List ℕ) (ri : P.Index)
        → s.flusher ≡ Flusher.merging (a ∷ rest)
        → get_elem? s.storage.indexes a ≡ some ri
        → Step s
            (record s { storage = store_level P ri s.storage; flusher = Flusher.sending a rest })
    finish :
        (s : System P)
        → s.flusher ≡ Flusher.merging []
        → Step s (record s { flusher = Flusher.waiting })
    -- The send on `compactDoneCh` meets the receive of `writeWorker`.
    done :
        (s : System P) (a : ℕ) (rest : List ℕ)
        → s.flusher ≡ Flusher.sending a rest
        → s.writer ≡ Writer.waiting
        → Step s (record s { storage = compact_done P a s.storage; flusher = Flusher.merging rest })
    -- `close(s.stopCh)`, and the returns of the workers, which come only at their selects.
    close : (s : System P) → Step s (record s { stop = true })
    return_writer :
        (s : System P)
        → s.stop ≡ true
        → s.writer ≡ Writer.waiting
        → Step s (record s { writer = Writer.returned })
    return_flusher :
        (s : System P)
        → s.stop ≡ true
        → s.flusher ≡ Flusher.waiting
        → Step s (record s { flusher = Flusher.returned })

  pub data Steps (s : System P) : System P → Type 0 where
    here : Steps s s
    next : {t u : System P} → Steps s t → Step t u → Steps s u
