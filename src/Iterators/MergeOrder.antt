-- ===== src/Iterators/MergeOrder.antt =====
-- `MergeIterator.Next` picks the first key in the order of the results, and can repeat an event.
use bitstar.Base.{
  ℕ, zero, suc, ◌+◌, ◌<◌, ◌≡◌, ◌⊎◌, inl, inr, refl, sym, ap, ◌∙◌, true, false, List, [], ◌∷◌, map,
  Option, none, some, Ordering, ltb, if◌then◌else◌, arith, Bool-cases, flip,
}
use bitstar.Keys.Defs.{EventKey, compare_event_key}
use bitstar.Keys.Order.{
  NotAfter, NotAfter-self, NotAfter-trans, NotAfter-of_gt, NotAfter-of_lt, NotAfter-of_eq,
  compare_event_key-flip,
}
use bitstar.Iterators.Merge.{Iterator, MergeIterator, consider, select, advance_at, merge_next}

module _ {S : Type 0} (ops : Iterator S) where
  -- The key comes after that of no valid iterator in the order of the results, latest first.
  abbrev pub First : EventKey → List S → Type 0
  First k [] = Unit
  First k (it ∷ its) = (ops.valid it ≡ true → NotAfter k (ops.value it)) × First k its

  First-weaken : (k m : EventKey) (its : List S) → NotAfter k m → First m its → First k its
  First-weaken k m [] h f = tt
  First-weaken k m (it ∷ its) h f =
      (λ v. NotAfter-trans k m (ops.value it) h (f.0 v), First-weaken k m its h f.1)

  -- The iterator stands as it did, or has been valid and moved on.
  abbrev pub Moved : S → S → Type 0
  Moved it it' = (it' ≡ it) ⊎ ((ops.valid it ≡ true) × (it' ≡ ops.next it))

  abbrev pub AllMoved : List S → List S → Type 0
  AllMoved [] [] = Unit
  AllMoved (it ∷ its) (it' ∷ its') = Moved it it' × AllMoved its its'
  AllMoved [] (it' ∷ its') = ⊥
  AllMoved (it ∷ its) [] = ⊥

  -- The iterator at the position is valid, has the key, and stands as it did.
  abbrev Chosen : EventKey → ℕ → List S → List S → Type 0
  Chosen k zero (it ∷ its) (it' ∷ its') =
      (ops.valid it ≡ true) × (ops.value it ≡ k) × (it' ≡ it) × AllMoved its its'
  Chosen k (suc p) (it ∷ its) (it' ∷ its') = Moved it it' × Chosen k p its its'
  Chosen k p [] its' = ⊥
  Chosen k zero (it ∷ its) [] = ⊥
  Chosen k (suc p) (it ∷ its) [] = ⊥

  -- A valid iterator that has the key has moved on by one.
  abbrev pub Advanced : EventKey → List S → List S → Type 0
  Advanced k [] its' = ⊥
  Advanced k (it ∷ its) [] = ⊥
  Advanced k (it ∷ its) (it' ∷ its') =
      ((ops.valid it ≡ true) × (ops.value it ≡ k) × (it' ≡ ops.next it) × AllMoved its its')
      ⊎ (Moved it it' × Advanced k its its')

  advance_at-Advanced :
      (k : EventKey) (p : ℕ) (its its' : List S)
      → Chosen k p its its'
      → Advanced k its (advance_at ops its' p)
  unfolding advance_at
  advance_at-Advanced k zero (it ∷ its) (it' ∷ its') (live, e, same, rest) =
      inl (live, e, ap ops.next same, rest)
  advance_at-Advanced k (suc p) (it ∷ its) (it' ∷ its') (moved, rest) =
      inr (moved, advance_at-Advanced k p its its' rest)
  advance_at-Advanced k p [] its' c = elim c [ ]
  advance_at-Advanced k zero (it ∷ its) [] c = elim c [ ]
  advance_at-Advanced k (suc p) (it ∷ its) [] c = elim c [ ]

  abbrev pub AllEnded : List S → Type 0
  AllEnded [] = Unit
  AllEnded (it ∷ its) = (ops.valid it ≡ false) × AllEnded its

  -- A round keeps the first in the results of the minimum and the iterator's key.
  record Considered (it : S) (i : ℕ) (m : EventKey) (mi : ℕ) (round : S × Option (EventKey × ℕ))
      : Type 0 where
    key : EventKey
    index : ℕ
    is_best : round.1 ≡ some (key, index)
    over_old : NotAfter key m
    over_new : ops.valid it ≡ true → NotAfter key (ops.value it)
    origin :
        ((key ≡ m) × (index ≡ mi) × Moved it round.0)
        ⊎ ((ops.valid it ≡ true) × (ops.value it ≡ key) × (index ≡ i) × (round.0 ≡ it))

  considered :
      (it : S) (i : ℕ) (m : EventKey) (mi : ℕ) (o : Ordering)
      → compare_event_key (ops.value it) m ≡ o
      → ops.valid it ≡ true
      → (ltb m.timestamp (ops.value it).timestamp ≡ true)
        ⊎ (ltb m.timestamp (ops.value it).timestamp ≡ false)
      → Considered it i m mi (consider ops it i (some (m, mi)))
  unfolding consider
  considered it i m mi Ordering.gt e live newer = record {
    key = ops.value it;
    index = i;
    is_best = ground arith;
    over_old = NotAfter-of_gt (ops.value it) m e;
    over_new = λ v. NotAfter-self (ops.value it);
    origin = inr (live, refl, refl, ground arith);
  }
  considered it i m mi Ordering.lt e live newer = record {
    key = m;
    index = mi;
    is_best = ground arith;
    over_old = NotAfter-self m;
    over_new = λ v. NotAfter-of_lt m (ops.value it) e;
    origin = inl (refl, refl, inl (ground arith));
  }
  considered it i m mi Ordering.eq e live (inl newer) = record {
    key = ops.value it;
    index = i;
    is_best = ground arith;
    over_old = NotAfter-of_eq (ops.value it) m e (ground arith);
    over_new = λ v. NotAfter-self (ops.value it);
    origin = inr (live, refl, refl, ground arith);
  }
  considered it i m mi Ordering.eq e live (inr older) = record {
    key = m;
    index = mi;
    is_best = ground arith;
    over_old = NotAfter-self m;
    over_new = λ v.
        NotAfter-of_eq m (ops.value it) (compare_event_key-flip (ops.value it) m ∙ ap flip e)
          (ground arith);
    origin = inl (refl, refl, inr (live, ground arith));
  }

  consider-Considered :
      (it : S) (i : ℕ) (m : EventKey) (mi : ℕ)
      → Considered it i m mi (consider ops it i (some (m, mi)))
  consider-Considered it i m mi = elim (Bool-cases (ops.valid it)) [
    | inl live ↦ considered it i m mi (compare_event_key (ops.value it) m) refl live (Bool-cases _)
    | inr ended ↦ record {
      key = m;
      index = mi;
      is_best = unfold consider in ground arith;
      over_old = NotAfter-self m;
      over_new = λ v. cc;
      origin = inl (refl, refl, inl (unfold consider in ground arith));
    }
  ]

  Considered-Moved :
      (it : S) (i : ℕ) (m : EventKey) (mi : ℕ) (round : S × Option (EventKey × ℕ))
      → Considered it i m mi round
      → Moved it round.0
  Considered-Moved it i m mi round c = elim c.origin [
    | inl (old, e, moved) ↦ moved
    | inr (live, e, e', same) ↦ inl same
  ]

  record Selected (its : List S) (i : ℕ) (m : EventKey) (mi : ℕ)
      (loop : List S × Option (EventKey × ℕ)) : Type 0 where
    key : EventKey
    index : ℕ
    is_best : loop.1 ≡ some (key, index)
    over_old : NotAfter key m
    first : First key its
    origin :
        ((key ≡ m) × (index ≡ mi) × AllMoved its loop.0)
        ⊎ ((p : ℕ) × (index ≡ p + i) × Chosen key p its loop.0)

  select-Selected :
      (its : List S) (i : ℕ) (m : EventKey) (mi : ℕ)
      → Selected its i m mi (select ops its i (some (m, mi)))
  unfolding select
  select-Selected [] i m mi = record {
    key = m;
    index = mi;
    is_best = refl;
    over_old = NotAfter-self m;
    first = tt;
    origin = inl (refl, refl, tt);
  }
  select-Selected (it ∷ its) i m mi =
      let c = consider-Considered it i m mi in
      let rest = select-Selected its (suc i) c.key c.index in
      record {
        key = rest.key;
        index = rest.index;
        is_best = ap (λ b. (select ops its (suc i) b).1) c.is_best ∙ rest.is_best;
        over_old = NotAfter-trans rest.key c.key m rest.over_old c.over_old;
        first = (
          λ v. NotAfter-trans rest.key c.key (ops.value it) rest.over_old (c.over_new v),
          rest.first,
        );
        origin = rw c.is_best (elim rest.origin [
          | inr (p, e, later) ↦
              inr (suc p, ground (arith, e), (Considered-Moved it i m mi _ c, later))
          | inl (here, e, kept) ↦ elim c.origin [
            | inl (old, e', as_it_was) ↦ inl (here ∙ old, e ∙ e', (as_it_was, kept))
            | inr (live, this, e', same) ↦
                inr (0, ground (arith, e, e'), (live, this ∙ sym here, same, kept))
          ]
        ]);
      }

  -- What the loop of `Next` leaves: nothing when every iterator has ended, and otherwise the key
  -- and the position of a valid iterator whose key comes after none of the others in the results.
  select_cases :
      (its : List S) (i : ℕ)
      → (((select ops its i none).1 ≡ none) × AllEnded its)
        ⊎ ((k : EventKey) × (j p : ℕ) × ((select ops its i none).1 ≡ some (k, j))
            × First k its
            × (j ≡ p + i)
            × Chosen k p its (select ops its i none).0)
  unfolding select consider
  select_cases [] i = inl (refl, tt)
  select_cases (it ∷ its) i = elim (Bool-cases (ops.valid it)) [
    | inr ended ↦ elim (select_cases its (suc i)) [
      | inl (e, all) ↦ inl (ground (arith, e), (ended, all))
      | inr (k, j, p, e, first, at, chosen) ↦ inr (
        k,
        j,
        suc p,
        ground (arith, e),
        ((λ v. cc), first),
        ground (arith, at),
        rw ended (inl refl, chosen),
      )
    ]
    | inl live ↦
        let rest = select-Selected its (suc i) (ops.value it) i in
        elim rest.origin [
          | inl (here, at, kept) ↦ inr (
            rest.key,
            rest.index,
            0,
            ground (arith, rest.is_best),
            ((λ v. rest.over_old), rest.first),
            ground (arith, at),
            rw live (refl, sym here, refl, kept),
          )
          | inr (p, at, later) ↦ inr (
            rest.key,
            rest.index,
            suc p,
            ground (arith, rest.is_best),
            ((λ v. rest.over_old), rest.first),
            ground (arith, at),
            rw live (inl refl, later),
          )
        ]
  ]

  -- The iterators that a call of `Next` looks at: the first call starts each of them.
  abbrev pub looked_at : MergeIterator S → List S
  looked_at mi = if mi.init then map ops.next mi.iterators else mi.iterators

  -- `Next` returns false exactly when the merge has ended or every iterator has, and then it has
  -- ended. Otherwise the current key comes first in the results, the latest by start, id and
  -- timestamp, of the keys of the valid iterators; a valid iterator that has this key has moved on
  -- by one; and every other iterator stands as it did or has been valid and moved on by one.
  pub merge_next_lem :
      (zero_key : EventKey) (mi : MergeIterator S)
      → let (mi', more) = merge_next ops zero_key mi in
        ((more ≡ false) × (mi'.end ≡ true) × ((mi.end ≡ true) ⊎ AllEnded (looked_at mi)))
        ⊎ ((more ≡ true)
            × (mi'.end ≡ false)
            × (mi.end ≡ false)
            × First mi'.current_key (looked_at mi)
            × Advanced mi'.current_key (looked_at mi) mi'.iterators)
  unfolding merge_next
  merge_next_lem zero_key mi = elim (Bool-cases mi.end) [
    | inl ended ↦ inl (ground arith, ground arith, inl ended)
    | inr running ↦ elim (select_cases (looked_at mi) 0) [
      | inl (e, all) ↦ inl (ground (arith, e), ground (arith, e), inr all)
      | inr (k, j, p, e, first, at, chosen) ↦
          let its = (select ops (looked_at mi) 0 none).0 in
          let current : (merge_next ops zero_key mi).0.current_key ≡ k = ground (arith, e) in
          let next : (merge_next ops zero_key mi).0.iterators ≡ advance_at ops its p =
            ground (arith, e, at) in
          inr (
            ground (arith, e),
            ground (arith, e),
            running,
            rw current first,
            rw current (rw next (advance_at-Advanced k p (looked_at mi) its chosen)),
          )
    ]
  ]

  -- Of two iterators that stand at one event, the second with a later timestamp, `Next` gives the
  -- later version and leaves the first iterator where it is. So if the second one then ends, the
  -- next call gives the stale version of the same event.
  pub merge_next_repeats :
      (zero_key : EventKey) (mi : MergeIterator S) (a b : S)
      → mi.init ≡ false
      → mi.end ≡ false
      → mi.iterators ≡ a ∷ b ∷ []
      → ops.valid a ≡ true
      → ops.valid b ≡ true
      → compare_event_key (ops.value b) (ops.value a) ≡ Ordering.eq
      → (ops.value a).timestamp < (ops.value b).timestamp
      → ops.valid (ops.next b) ≡ false
      → let (mi', more) = merge_next ops zero_key mi in
        let (mi'', more') = merge_next ops zero_key mi' in
        (more ≡ true)
        × (mi'.current_key ≡ ops.value b)
        × (more' ≡ true)
        × (mi''.current_key ≡ ops.value a)
  unfolding merge_next
  merge_next_repeats zero_key mi a b started running two live_a live_b same_event newer ends =
      ground arith
