-- ===== src/Index/Times.antt =====
-- The start and the end of an event in the bit-sliced indexes of its row.
use bitstar.Base.{
  ℕ, ◌<◌, ◌≤◌, ◌^◌, ◌%◌, ◌≡◌, refl, ap, ◌∙◌, Bool, true, some, arith, inl, inr, length,
  Option-cases, len64,
}
use native.Mathlib.Nat.{mod-eq_of_lt}
use bitstar.Roaring.{Roaring}
use bitstar.Keys.Defs.{Time, unix}
use bitstar.Bsi.Defs.{Bsi, set_value, get_value, new_bsi, new_default_bsi}
use bitstar.Bsi.Value.{slices_value}
use bitstar.Bsi.SetGet.{get_value-eq-held, IsValid, set_value-IsWritten}
use bitstar.Bsi.Plain.{set_value-limits}
use bitstar.Memtable.Defs.{Event}
use bitstar.Index.Defs.{RoaringIndex, index_event}

pub unix-lt : (t : Time) → unix t < 2 ^ 64
unfolding unix
unix-lt t = omega arith

module _ (R : Roaring) where
  open R use {Bitmap}

  -- A well-formed index of times that sizes itself.
  pub record IsOfTimes (b : Bsi Bitmap) : Type 0 where
    pub valid : IsValid R b
    pub sizes_itself : (b.max_value ≡ 0) × (b.min_value ≡ 0)

  -- What a read gives is what the slices hold.
  pub slices_value-get_value :
      (b : Bsi Bitmap) (r value : ℕ)
      → r < 2 ^ 32
      → length b.b_a ≤ 64
      → get_value R b r ≡ (value, true)
      → slices_value R r 0 b.b_a ≡ value
  slices_value-get_value b r value small narrow read =
      let in_range : r % 2 ^ 32 ≡ r = mod-eq_of_lt small in
      let held = get_value-eq-held R b r narrow in ground (arith, held, in_range)

  pub new_default_bsi-IsOfTimes : IsOfTimes (new_default_bsi R)
  unfolding new_default_bsi new_bsi len64
  new_default_bsi-IsOfTimes = record {
    valid = record { no_stale = λ c h. tt; width = omega arith };
    sizes_itself = (refl, refl);
  }

  -- The two indexes of times hold the times of the event at the row.
  pub record HasTimes (ri : RoaringIndex Bitmap) (r : ℕ) (e : Event) : Type 0 where
    pub starts : get_value R ri.start_time r ≡ (unix e.start_time, true)
    pub ends : get_value R ri.end_time r ≡ (unix e.end_time, true)

  -- A time written at the next row.
  record IsTimeWritten (b b' : Bsi Bitmap) (row : ℕ) (t : Time) : Type 0 where
    of_times : IsOfTimes b'
    reads_back : get_value R b' row ≡ (unix t, true)
    others : (r : ℕ) → r < row → get_value R b' r ≡ get_value R b r

  set_value-IsTimeWritten :
      (b b' : Bsi Bitmap) (row : ℕ) (t : Time)
      → IsOfTimes b
      → row < 2 ^ 32
      → set_value R b row (unix t) ≡ some b'
      → IsTimeWritten b b' row t
  set_value-IsTimeWritten b b' row t times small h =
      let w =
        set_value-IsWritten R b b' row (unix t) times.valid (unix-lt t) (inl times.sizes_itself)
          h in
      let limits = set_value-limits R b b' row (unix t) h in
      record {
        of_times = record {
          valid = w.stays_valid;
          sizes_itself = (limits.0 ∙ times.sizes_itself.0, limits.1 ∙ times.sizes_itself.1);
        };
        reads_back = w.reads_back;
        others = λ r before. w.others r (λ same_column. omega (arith, same_column));
      }

  -- The times of the rows after `indexEvent`.
  pub record IsTimed (ri ri' : RoaringIndex Bitmap) (e : Event) : Type 0 where
    pub start_times : IsOfTimes ri'.start_time
    pub end_times : IsOfTimes ri'.end_time
    pub new_times : HasTimes ri' (length ri.keys) e
    pub old_times : (r : ℕ) (e' : Event) → r < length ri.keys → HasTimes ri r e' → HasTimes ri' r e'

  pub index_event-IsTimed :
      (ri ri' : RoaringIndex Bitmap) (e : Event) (ts : ℕ) (is_deleted : Bool)
      → IsOfTimes ri.start_time
      → IsOfTimes ri.end_time
      → length ri.keys < 2 ^ 32
      → index_event R ri (some e) ts is_deleted ≡ some ri'
      → IsTimed ri ri' e
  unfolding index_event
  index_event-IsTimed ri ri' e ts is_deleted start_times end_times small h =
      let row = length ri.keys in
      let in_range : row % 2 ^ 32 ≡ row = mod-eq_of_lt small in
      elim (Option-cases (set_value R ri.start_time row (unix e.start_time))) [
        | inl stopped ↦ absurd (ground (arith, in_range))
        | inr (b, run) ↦ elim (Option-cases (set_value R ri.end_time row (unix e.end_time))) [
          | inl stopped ↦ absurd (ground (arith, in_range))
          | inr (b', run') ↦
              let same : b ≡ ri'.start_time = ground (arith, in_range) in
              let same' : b' ≡ ri'.end_time = ground (arith, in_range) in
              let s =
                set_value-IsTimeWritten ri.start_time ri'.start_time row e.start_time start_times
                  small (run ∙ ap some same) in
              let t =
                set_value-IsTimeWritten ri.end_time ri'.end_time row e.end_time end_times small
                  (run' ∙ ap some same') in
              record {
                start_times = s.of_times;
                end_times = t.of_times;
                new_times = record { starts = s.reads_back; ends = t.reads_back };
                old_times = λ r e' before old. record {
                  starts = s.others r before ∙ old.starts;
                  ends = t.others r before ∙ old.ends;
                };
              }
        ]
      ]
