-- ===== src/Iterators/Merge.antt =====
-- iterator.go and iterator_merge.go: one iterator over the keys of several.
use bitstar.Base.{
  ℕ, zero, suc, Bool, true, false, List, [], ◌∷◌, map, Option, none, some, Ordering, ltb,
  if◌then◌else◌, not,
}
use bitstar.Keys.Defs.{EventKey, compare_event_key}

-- `Iterator`: what the calls do to the state of an iterator.
pub record Iterator (S : Type 0) : Type 0 where
  pub next : S → S
  pub value : S → EventKey
  pub seek : S → EventKey → S
  pub valid : S → Bool

-- `MergeIterator`. The zero key of Go stands in `current_key` before the first `Next`.
pub record MergeIterator (S : Type 0) : Type 0 where
  pub init : Bool
  pub iterators : List S
  pub current_key : EventKey
  pub end : Bool

module _ {S : Type 0} (ops : Iterator S) where
  -- `NewMergeIterator`, with the zero key.
  unfoldable new_merge_iterator : EventKey → List S → MergeIterator S
  new_merge_iterator zero_key iterators = record {
    init = true;
    iterators = iterators;
    current_key = zero_key;
    end = false;
  }

  -- `Valid`.
  unfoldable merge_valid : MergeIterator S → Bool
  merge_valid mi = not mi.end

  -- What a round of the loop of `Next` makes of the minimum so far and of the iterator.
  unfoldable pub consider : S → ℕ → Option (EventKey × ℕ) → S × Option (EventKey × ℕ)
  consider it i none = if ops.valid it then (it, some (ops.value it, i)) else (it, none)
  consider it i (some (min_value, min_index)) =
      let key = ops.value it in
      if ops.valid it
      then elim (compare_event_key key min_value) [
        | Ordering.gt ↦ (it, some (key, i))
        | Ordering.lt ↦ (it, some (min_value, min_index))
        | Ordering.eq ↦
            if ltb min_value.timestamp key.timestamp
            then (it, some (key, i))
            else (ops.next it, some (min_value, min_index))
      ]
      else (it, some (min_value, min_index))

  -- The loop, from iterator `i` on.
  unfoldable pub select : List S → ℕ → Option (EventKey × ℕ) → List S × Option (EventKey × ℕ)
  unfolding consider
  select [] i best = ([], best)
  select (it ∷ its) i best =
      let (it', best') = consider it i best in
      let (its', chosen) = select its (suc i) best' in (it' ∷ its', chosen)

  -- `mi.iterators[minIndex].Next()`.
  unfoldable pub advance_at : List S → ℕ → List S
  advance_at [] i = []
  advance_at (it ∷ its) zero = ops.next it ∷ its
  advance_at (it ∷ its) (suc i) = it ∷ advance_at its i

  -- `Next`. With no valid iterator `minValue` stays the zero key.
  unfoldable pub merge_next : EventKey → MergeIterator S → MergeIterator S × Bool
  unfolding select advance_at
  merge_next zero_key mi =
      let started = if mi.init then map ops.next mi.iterators else mi.iterators in
      let (its, chosen) = select started 0 none in
      if mi.end then (mi, false) else elim chosen [
        | none ↦
            (record { init = false; iterators = its; current_key = zero_key; end = true }, false)
        | some (min_value, min_index) ↦ (
          record {
            init = false;
            iterators = advance_at its min_index;
            current_key = min_value;
            end = false;
          },
          true,
        )
      ]

  -- `Value`.
  unfoldable pub merge_value : MergeIterator S → EventKey
  merge_value mi = mi.current_key

  -- `Seek`, which leaves `init`, `currentKey` and `end` as they are.
  unfoldable merge_seek : MergeIterator S → EventKey → MergeIterator S
  merge_seek mi key = record mi { iterators = map (λ it. ops.seek it key) mi.iterators }
