-- ===== src/Storage/Closing.antt =====
-- The workers and `Close`: an index that is sent while the writer returns is never received.
use bitstar.Base.{ℕ, ◌≡◌, ◌≢◌, refl, true, List, [], ◌∷◌, some, get_elem?}
use bitstar.Storage.Parts.{Parts}
use bitstar.Storage.Defs.{System, Writer, Flusher, compact_done, store_level}
use bitstar.Storage.Steps.{
  Step, put, swap, store, signal, no_signal, tick, merge, finish, done, close, return_writer,
  return_flusher, Steps, here, next,
}
use bitstar.Storage.Coherent.{AllThere}

module _ (P : Parts) where
  Steps-append : {s t u : System P} → Steps P s t → Steps P t u → Steps P s u
  Steps-append run here = run
  Steps-append run (next run' step) = next (Steps-append run run') step

  -- The writer has returned and the flusher stands at its send.
  abbrev IsStuck : ℕ → List ℕ → System P → Type 0
  IsStuck a rest s = (s.writer ≡ Writer.returned) × (s.flusher ≡ Flusher.sending a rest)

  Step-IsStuck :
      (a : ℕ) (rest : List ℕ) {s t : System P} → Step P s t → IsStuck a rest s → IsStuck a rest t
  Step-IsStuck a rest (put s items w f) h = absurd (cc (w, h.0))
  Step-IsStuck a rest (swap s items w f) h = absurd (cc (w, h.0))
  Step-IsStuck a rest (store s old items ri w f) h = absurd (cc (w, h.0))
  Step-IsStuck a rest (signal s items w f) h = absurd (cc (w, h.0))
  Step-IsStuck a rest (no_signal s items w) h = absurd (cc (w, h.0))
  Step-IsStuck a rest (tick s f) h = absurd (cc (f, h.1))
  Step-IsStuck a rest (merge s b more ri f there) h = absurd (cc (f, h.1))
  Step-IsStuck a rest (finish s f) h = absurd (cc (f, h.1))
  Step-IsStuck a rest (done s b more f w) h = absurd (cc (w, h.0))
  Step-IsStuck a rest (close s) h = h
  Step-IsStuck a rest (return_writer s e w) h = absurd (cc (w, h.0))
  Step-IsStuck a rest (return_flusher s e f) h = absurd (cc (f, h.1))

  Steps-IsStuck :
      (a : ℕ) (rest : List ℕ) {s t : System P} → Steps P s t → IsStuck a rest s → IsStuck a rest t
  Steps-IsStuck a rest here h = h
  Steps-IsStuck a rest (next run step) h = Step-IsStuck a rest step (Steps-IsStuck a rest run h)

  -- If `Close` is called while the flusher has an index to merge, the writer can return first; then
  -- the flusher never gets past its send, whatever steps follow, and `Close` waits for ever. The
  -- pointer of the flusher points to an index.
  pub close_hangs :
      (s : System P) (a : ℕ) (rest : List ℕ) (ri : P.Index)
      → get_elem? s.storage.indexes a ≡ some ri
      → s.writer ≡ Writer.waiting
      → s.flusher ≡ Flusher.merging (a ∷ rest)
      → (t : System P) × Steps P s t
        × (t.stop ≡ true)
        × ((u : System P) → Steps P t u → u.flusher ≡ Flusher.sending a rest)
  close_hangs s a rest ri there w f =
      let b : System P = record s {
        storage = store_level P ri s.storage;
        flusher = Flusher.sending a rest;
      } in
      let c : System P = record b { stop = true } in
      let d : System P = record c { writer = Writer.returned } in
      (
        d,
        next (next (next here (merge s a rest ri f there)) (close b)) (return_writer c refl w),
        refl,
        λ u run. (Steps-IsStuck a rest run (refl, refl)).1,
      )

  drains :
      (rest : List ℕ) (s : System P)
      → AllThere P s.storage.indexes rest
      → s.writer ≡ Writer.waiting
      → s.flusher ≡ Flusher.merging rest
      → (t : System P) × Steps P s t × (t.flusher ≡ Flusher.waiting) × (t.writer ≡ Writer.waiting)
  unfolding store_level compact_done
  drains [] s held w f = (record s { flusher = Flusher.waiting }, next here (finish s f), refl, w)
  drains (a ∷ rest) s held w f =
      let b : System P = record s {
        storage = store_level P held.0.0 s.storage;
        flusher = Flusher.sending a rest;
      } in
      let c : System P = record b {
        storage = compact_done P a b.storage;
        flusher = Flusher.merging rest;
      } in
      let to_b = merge s a rest held.0.0 f held.0.1 in
      let to_c = done b a rest refl w in
      let (t, run, idle, free) = drains rest c held.1 w refl in
      (t, Steps-append (next (next here to_b) to_c) run, idle, free)

  -- The pending indexes that the flusher has still to merge.
  abbrev pub left_to_merge : Flusher P → List ℕ
  left_to_merge Flusher.waiting = []
  left_to_merge (Flusher.merging rest) = rest
  left_to_merge (Flusher.sending a rest) = rest
  left_to_merge Flusher.returned = []

  -- While the writer is at its select, the flusher can always finish its round and get back to its
  -- own select, whatever it was doing: the two do not wait for each other. The flusher has not
  -- returned, and its pointers point to indexes.
  pub flusher_drains :
      (s : System P)
      → AllThere P s.storage.indexes (left_to_merge s.flusher)
      → s.writer ≡ Writer.waiting
      → s.flusher ≢ Flusher.returned
      → (t : System P) × Steps P s t × (t.flusher ≡ Flusher.waiting) × (t.writer ≡ Writer.waiting)
  unfolding compact_done
  flusher_drains s held w running = by_flusher s.flusher held refl
    where
      by_flusher :
          (f : Flusher P)
          → AllThere P s.storage.indexes (left_to_merge f)
          → s.flusher ≡ f
          → (t : System P) × Steps P s t
            × (t.flusher ≡ Flusher.waiting)
            × (t.writer ≡ Writer.waiting)
      by_flusher Flusher.waiting there e = (s, here, e, w)
      by_flusher (Flusher.merging rest) there e = drains rest s there w e
      by_flusher (Flusher.sending a rest) there e =
          let c : System P = record s {
            storage = compact_done P a s.storage;
            flusher = Flusher.merging rest;
          } in
          let to_c = done s a rest e w in
          let (t, run, idle, free) = drains rest c there w refl in
          (t, Steps-append (next here to_c) run, idle, free)
      by_flusher Flusher.returned there e = absurd (running e)
