-- ===== src/Storage/Visible.antt =====
-- What a reader of the table, the pending indexes and the levels sees of the writes while the
-- workers run.
use bitstar.Base.{
  ℕ, ◌≡◌, ◌⊎◌, refl, ap, Bool, true, ◌||◌, List, [], ◌∷◌, ◌++◌, some, arith, length,
  get_elem?-append_left, get_elem?-append_last, any, any-append, ◌==◌, Bool-cases, Option-cases,
  inl, inr,
}
use bitstar.Storage.Parts.{Parts}
use bitstar.Storage.Levels.{in_levels, in_levels-merge_level}
use bitstar.Storage.Defs.{
  Storage, System, Flusher, at_place, in_pending, is_visible, is_full, put_items,
  batch_create_events, remove_pending, compact, compact_done, store_level, append_pending,
  swap_table,
}
use bitstar.Storage.Steps.{
  Step, put, swap, store, signal, no_signal, tick, merge, finish, done, close, return_writer,
  return_flusher,
}
use bitstar.Storage.Coherent.{AllThere, IsSound, IsCoherent}

module _ (P : Parts) where
  open P use {Table, Index, Item, Key}

  -- Putting items adds exactly what they write.
  in_table-put_items :
      (t : Table) (items : List Item) (k : Key)
      → P.in_table (put_items P t items) k ≡ (any (λ i. P.writes i k) items || P.in_table t k)
  unfolding put_items
  in_table-put_items t [] k = refl
  in_table-put_items t (i ∷ items) k =
      ground (arith, in_table-put_items (P.put_item t i) items k, P.in_table-put_item t i k)

  at_place-append :
      (indexes : List Index) (ri : Index) (k : Key) (pen : List ℕ)
      → AllThere P indexes pen
      → any (at_place P (indexes ++ ri ∷ []) k) pen ≡ any (at_place P indexes k) pen
  at_place-append indexes ri k [] h = refl
  at_place-append indexes ri k (a ∷ rest) h =
      let kept = get_elem?-append_left indexes (ri ∷ []) a h.0.1 in
      ground (arith, at_place-append indexes ri k rest h.1, h.0.1, kept)

  -- The new pending index adds exactly what it holds.
  in_pending-append_pending :
      (s : Storage P) (ri : Index) (k : Key)
      → AllThere P s.indexes s.pen
      → in_pending P (append_pending P s ri) k ≡ (in_pending P s k || P.in_index ri k)
  unfolding append_pending
  in_pending-append_pending s ri k there =
      let last = get_elem?-append_last s.indexes ri in
      let parts = any-append (at_place P (s.indexes ++ ri ∷ []) k) s.pen (length s.indexes ∷ []) in
      let old = at_place-append s.indexes ri k s.pen there in ground (arith, last, parts, old)

  -- `batchCreateEvents`, run alone, makes exactly its items visible and keeps all that was visible.
  -- The pending places point to indexes.
  pub is_visible-batch_create_events :
      (s s' : Storage P) (items : List Item) (k : Key)
      → AllThere P s.indexes s.pen
      → batch_create_events P s items ≡ some s'
      → is_visible P s' k ≡ (any (λ i. P.writes i k) items || is_visible P s k)
  unfolding batch_create_events
  is_visible-batch_create_events s s' items k there h = elim (Bool-cases (is_full P s.cur)) [
    | inr room ↦
        let same : record s { cur = put_items P s.cur items } ≡ s' = ground arith in
        rw (← same) (ground (arith, in_table-put_items s.cur items k))
    | inl full ↦ elim (Option-cases (P.from_mem_table s.cur)) [
      | inl stopped ↦ absurd (ground arith)
      | inr (ri, made) ↦
          let t = append_pending P (swap_table P s) ri in
          let same : record t { cur = put_items P t.cur items } ≡ s' = ground arith in
          let new_pending = in_pending-append_pending (swap_table P s) ri k there in
          let moved = P.in_index-from_mem_table s.cur ri k made in
          rw (← same) (
            unfold swap_table append_pending in
            (ground (
              arith,
              in_table-put_items P.new_mem_table items k,
              P.in_table-new_mem_table k,
              new_pending,
              moved,
            )))
    ]
  ]

  -- Levels never lose a key.
  pub Step-in_levels :
      {s t : System P} (k : Key)
      → Step P s t
      → in_levels P s.storage.levels k ≡ true
      → in_levels P t.storage.levels k ≡ true
  Step-in_levels k (put s items w f) h = h
  Step-in_levels k (swap s items w f) h = unfold swap_table in h
  Step-in_levels k (store s old items ri w f) h = unfold append_pending in h
  Step-in_levels k (signal s items w f) h = unfold compact in ground arith
  Step-in_levels k (no_signal s items w) h = h
  Step-in_levels k (tick s f) h = h
  Step-in_levels k (merge s a rest ri f there) h =
      unfold store_level in ground (arith, in_levels-merge_level P s.storage.levels ri k)
  Step-in_levels k (finish s f) h = h
  Step-in_levels k (done s a rest f w) h = unfold compact_done in h
  Step-in_levels k (close s) h = h
  Step-in_levels k (return_writer s e w) h = h
  Step-in_levels k (return_flusher s e f) h = h

  -- A key is in the pending indexes or in the levels.
  abbrev pub is_stored : Storage P → Key → Bool
  is_stored s k = in_pending P s k || in_levels P s.levels k

  any-remove_pending :
      (p : ℕ → Bool) (a : ℕ) (pen : List ℕ)
      → any p pen ≡ true
      → (p a ≡ true) ⊎ (any p (remove_pending P a pen) ≡ true)
  unfolding remove_pending
  any-remove_pending p a [] h = absurd (ground arith)
  any-remove_pending p a (t ∷ rest) h = elim (Bool-cases (t == a)) [
    | inl same ↦
        let here' : t ≡ a = ground arith in
        elim (Bool-cases (p a)) [
          | inl yes' ↦ inl yes'
          | inr no' ↦ inr (rw same (ground (arith, ap p here')))
        ]
    | inr other ↦ elim (Bool-cases (p t)) [
      | inl first ↦ inr (ground arith)
      | inr later ↦ elim (any-remove_pending p a rest (ground arith)) [
        | inl found ↦ inl found
        | inr kept ↦ inr (ground arith)
      ]
    ]
  ]

  pub Step-is_stored :
      {s t : System P} (k : Key)
      → Step P s t
      → IsCoherent P s
      → is_stored s.storage k ≡ true
      → is_stored t.storage k ≡ true
  Step-is_stored k (put s items w f) c h = h
  Step-is_stored k (swap s items w f) c h = unfold swap_table in h
  Step-is_stored k (store s old items ri w f) c h =
      let more = in_pending-append_pending s.storage ri k c.pen_there in
      let same : (append_pending P s.storage ri).levels ≡ s.storage.levels =
        unfold append_pending in refl in
      rw same (ground (arith, more))
  Step-is_stored k (signal s items w f) c h = unfold compact in ground arith
  Step-is_stored k (no_signal s items w) c h = h
  Step-is_stored k (tick s f) c h = h
  Step-is_stored k (merge s a rest ri f there) c h =
      unfold store_level in ground (arith, in_levels-merge_level P s.storage.levels ri k)
  Step-is_stored k (finish s f) c h = h
  Step-is_stored k (done s a rest f w) c h =
      let held : IsSound P s.storage.indexes s.storage.levels (Flusher.sending a rest) =
        rw f at c.flusher_sound in
      unfold compact_done in
      (elim (Bool-cases (in_levels P s.storage.levels k)) [
        | inl merged ↦ ground arith
        | inr unmerged ↦
            elim (any-remove_pending (at_place P s.storage.indexes k) a s.storage.pen
              (ground arith)) [
                | inl sent ↦ let inside = held.0.2 k in ground (arith, held.0.1)
                | inr kept ↦ ground arith
              ]
      ])
  Step-is_stored k (close s) c h = h
  Step-is_stored k (return_writer s e w) c h = h
  Step-is_stored k (return_flusher s e f) c h = h
