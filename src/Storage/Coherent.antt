-- ===== src/Storage/Coherent.antt =====
-- The places that the workers of storage.go hold point to indexes, and an index that is sent is in
-- the levels.
use bitstar.Base.{
  ℕ, ◌≡◌, true, List, [], ◌∷◌, ◌++◌, some, arith, get_elem?, length, get_elem?-append_left,
  get_elem?-append_last, leb, ◌==◌, ◌+◌, Bool-cases, inl, inr,
}
use bitstar.Storage.Parts.{Parts}
use bitstar.Storage.Levels.{Levels, in_levels, in_levels-merge_level}
use bitstar.Storage.Defs.{
  System, Flusher, remove_pending, compact, compact_done, store_level, append_pending, swap_table,
  start_system, open_storage,
}
use bitstar.Storage.Steps.{
  Step, put, swap, store, signal, no_signal, tick, merge, finish, done, close, return_writer,
  return_flusher, Steps, here, next,
}

module _ (P : Parts) where
  open P use {Table, Index, Item, Key}

  -- Every place has an index.
  abbrev pub AllThere : List Index → List ℕ → Type 0
  AllThere indexes [] = Unit
  AllThere indexes (a ∷ rest) =
      ((ri : Index) × (get_elem? indexes a ≡ some ri)) × AllThere indexes rest

  AllThere-append :
      (indexes : List Index) (ri : Index) (as' : List ℕ)
      → AllThere indexes as'
      → AllThere (indexes ++ ri ∷ []) as'
  AllThere-append indexes ri [] h = tt
  AllThere-append indexes ri (a ∷ rest) h = (
    (h.0.0, get_elem?-append_left indexes (ri ∷ []) a h.0.1),
    AllThere-append indexes ri rest h.1,
  )

  AllThere-last :
      (indexes : List Index) (ri : Index) (pen : List ℕ)
      → AllThere indexes pen
      → AllThere (indexes ++ ri ∷ []) (pen ++ length indexes ∷ [])
  AllThere-last indexes ri [] h = ((ri, get_elem?-append_last indexes ri), tt)
  AllThere-last indexes ri (a ∷ rest) h =
      ((h.0.0, get_elem?-append_left indexes (ri ∷ []) a h.0.1), AllThere-last indexes ri rest h.1)

  AllThere-remove_pending :
      (indexes : List Index) (a : ℕ) (pen : List ℕ)
      → AllThere indexes pen
      → AllThere indexes (remove_pending P a pen)
  unfolding remove_pending
  AllThere-remove_pending indexes a [] h = tt
  AllThere-remove_pending indexes a (t ∷ rest) h = elim (Bool-cases (t == a)) [
    | inl same ↦ rw same h.1
    | inr other ↦ rw other (h.0, AllThere-remove_pending indexes a rest h.1)
  ]

  -- What the flusher holds is there, and what it sends is in the levels.
  abbrev pub IsSound : List Index → Levels Index → Flusher P → Type 0
  IsSound indexes levels Flusher.waiting = Unit
  IsSound indexes levels (Flusher.merging rest) = AllThere indexes rest
  IsSound indexes levels (Flusher.sending a rest) =
      ((ri : Index) × (get_elem? indexes a ≡ some ri)
        × ((k : Key) → P.in_index ri k ≡ true → in_levels P levels k ≡ true))
      × AllThere indexes rest
  IsSound indexes levels Flusher.returned = Unit

  IsSound-append :
      (indexes : List Index) (levels : Levels Index) (ri : Index) (f : Flusher P)
      → IsSound indexes levels f
      → IsSound (indexes ++ ri ∷ []) levels f
  IsSound-append indexes levels ri Flusher.waiting h = tt
  IsSound-append indexes levels ri (Flusher.merging rest) h = AllThere-append indexes ri rest h
  IsSound-append indexes levels ri (Flusher.sending a rest) h = (
    (h.0.0, get_elem?-append_left indexes (ri ∷ []) a h.0.1, h.0.2),
    AllThere-append indexes ri rest h.1,
  )
  IsSound-append indexes levels ri Flusher.returned h = tt

  -- Places stand for pointers, which always point to an index: so the places of a state that the
  -- program can have are within the list. What the flusher sends is in the levels.
  pub record IsCoherent (s : System P) : Type 0 where
    pub pen_there : AllThere s.storage.indexes s.storage.pen
    pub flusher_sound : IsSound s.storage.indexes s.storage.levels s.flusher

  compact-IsCoherent : (s : System P) → IsCoherent s → IsCoherent (compact P s)
  unfolding compact
  compact-IsCoherent s c = elim (Bool-cases (leb 4 (s.count + 1))) [
    | inl fourth ↦ rw fourth (record { pen_there = c.pen_there; flusher_sound = c.pen_there })
    | inr few ↦ rw few (record { pen_there = c.pen_there; flusher_sound = c.flusher_sound })
  ]

  -- Every step of the workers keeps the state coherent.
  pub Step-IsCoherent : {s t : System P} → Step P s t → IsCoherent s → IsCoherent t
  Step-IsCoherent (put s items w f) c = record {
    pen_there = c.pen_there;
    flusher_sound = c.flusher_sound;
  }
  Step-IsCoherent (swap s items w f) c =
      unfold swap_table in (record { pen_there = c.pen_there; flusher_sound = c.flusher_sound })
  Step-IsCoherent (store s old items ri w f) c =
      unfold append_pending in
      (record {
        pen_there = AllThere-last s.storage.indexes ri s.storage.pen c.pen_there;
        flusher_sound =
            IsSound-append s.storage.indexes s.storage.levels ri s.flusher c.flusher_sound;
      })
  Step-IsCoherent (signal s items w f) c =
      compact-IsCoherent _ (record { pen_there = c.pen_there; flusher_sound = c.flusher_sound })
  Step-IsCoherent (no_signal s items w) c = record {
    pen_there = c.pen_there;
    flusher_sound = c.flusher_sound;
  }
  Step-IsCoherent (tick s f) c = record { pen_there = c.pen_there; flusher_sound = c.pen_there }
  Step-IsCoherent (merge s a rest ri f there) c =
      let held : AllThere s.storage.indexes (a ∷ rest) = rw f at c.flusher_sound in
      unfold store_level in
      (record {
        pen_there = c.pen_there;
        flusher_sound = (
          (ri, there, λ k h. ground (arith, in_levels-merge_level P s.storage.levels ri k)),
          held.1,
        );
      })
  Step-IsCoherent (finish s f) c = record { pen_there = c.pen_there; flusher_sound = tt }
  Step-IsCoherent (done s a rest f w) c =
      let held : IsSound s.storage.indexes s.storage.levels (Flusher.sending a rest) =
        rw f at c.flusher_sound in
      unfold compact_done in
      (record {
        pen_there = AllThere-remove_pending s.storage.indexes a s.storage.pen c.pen_there;
        flusher_sound = held.1;
      })
  Step-IsCoherent (close s) c = record { pen_there = c.pen_there; flusher_sound = c.flusher_sound }
  Step-IsCoherent (return_writer s e w) c = record {
    pen_there = c.pen_there;
    flusher_sound = c.flusher_sound;
  }
  Step-IsCoherent (return_flusher s e f) c = record { pen_there = c.pen_there; flusher_sound = tt }

  pub Steps-IsCoherent : {s t : System P} → Steps P s t → IsCoherent s → IsCoherent t
  Steps-IsCoherent here c = c
  Steps-IsCoherent (next run step) c = Step-IsCoherent step (Steps-IsCoherent run c)

  pub start_system-IsCoherent : IsCoherent (start_system P)
  unfolding start_system open_storage
  start_system-IsCoherent = record { pen_there = tt; flusher_sound = tt }
