-- ===== src/Index/Rows.antt =====
-- `indexEvent` gives the event a row of its own and changes no other.
use bitstar.Base.{
  ℕ, suc, ◌≤◌, ◌<◌, ◌^◌, ◌%◌, ◌≡◌, ◌↔◌, inl, inr, refl, ap, ◌∙◌, Bool, true, false, ◌&&◌, ◌||◌,
  List, [], ◌∷◌, none, some, arith, ◌==◌, any, length, length-append, Bytes, same_bytes,
  same_bytes_iff, Bool-cases, Option-cases, lookup_by, insert_by, entry_or, IsEquality,
  lookup_by-insert_by,
}
use bitstar.Roaring.{Roaring}
use bitstar.Memtable.Defs.{Event, has_tag_in, has_annotation_in}
use native.Mathlib.Nat.{mod-eq_of_lt}
use bitstar.Bsi.Defs.{set_value}
use bitstar.Keys.Defs.{unix}
use bitstar.Index.Defs.{
  event_key_from_proto, Pair, same_pair, RoaringIndex, add_tags, add_annotations, index_event,
}
use bitstar.Index.Agree.{IsIndexed}

-- Each key stands once, as in a Go map.
abbrev pub DistinctKeys : List Pair → Type 0
DistinctKeys [] = Unit
DistinctKeys ((k, v) ∷ ps) = (lookup_by same_bytes k ps ≡ none) × DistinctKeys ps

-- A test that tells equal keys is an equivalence.
pub tells-IsEquality {ℓ} :
    {K : Type ℓ} (same_key : K → K → Bool)
    → ((a b : K) → (same_key a b ≡ true) ↔ (a ≡ b))
    → IsEquality same_key
tells-IsEquality same_key tells = record {
  reflexive = λ a. (tells a a).1 refl;
  congruent = λ a b c h. ap (λ x. same_key x c) ((tells a b).0 h);
}

pub same_pair_iff : (p q : Pair) → (same_pair p q ≡ true) ↔ (p ≡ q)
unfolding same_pair
same_pair_iff (k, v) (k', v') = (
  λ h.
      let keys : k ≡ k' = (same_bytes_iff k k').0 (ground arith) in
      let values : v ≡ v' = (same_bytes_iff v v').0 (ground arith) in cc,
  λ h.
      let keys : same_bytes k k' ≡ true = (same_bytes_iff k k').1 (ap (λ p. p.0) h) in
      let values : same_bytes v v' ≡ true = (same_bytes_iff v v').1 (ap (λ p. p.1) h) in
      ground arith,
)

any-none :
    (key value : Bytes) (ps : List Pair)
    → lookup_by same_bytes key ps ≡ none
    → any (λ p. same_pair p (key, value)) ps ≡ false
unfolding lookup_by same_pair
any-none key value [] h = refl
any-none key value ((k, v) ∷ ps) h = let rest = any-none key value ps in ground (arith, rest)

any-has_annotation_in :
    (key value : Bytes) (ps : List Pair)
    → DistinctKeys ps
    → any (λ p. same_pair p (key, value)) ps ≡ has_annotation_in key value ps
unfolding has_annotation_in same_pair lookup_by
any-has_annotation_in key value [] d = refl
any-has_annotation_in key value ((k, v) ∷ ps) d = elim (Bool-cases (same_bytes k key)) [
  | inl here ↦
      let same_key : k ≡ key = (same_bytes_iff k key).0 here in
      let missing : lookup_by same_bytes key ps ≡ none = rw same_key at d.0 in
      let nothing = any-none key value ps missing in ground (arith, nothing)
  | inr there ↦ let rest = any-has_annotation_in key value ps d.1 in ground (arith, rest)
]

module _ (R : Roaring) where
  open R use {Bitmap}

  -- A round of the loops: the row joins the entry of the key.
  entry-add {ℓ} :
      {K : Type ℓ} (same_key : K → K → Bool)
      → ((a b : K) → (same_key a b ≡ true) ↔ (a ≡ b))
      → (k name : K) (row c : ℕ) (m : List (K × Bitmap))
      → R.contains
          (entry_or same_key R.new name
            (insert_by same_key k (R.add (entry_or same_key R.new k m) row) m))
          c
        ≡ (R.contains (entry_or same_key R.new name m) c || ((c == row) && same_key k name))
  entry-add same_key tells k name row c m =
      let found =
        lookup_by-insert_by same_key (tells-IsEquality same_key tells) k name
          (R.add (entry_or same_key R.new k m) row) m in
      elim (Bool-cases (same_key k name)) [
        | inl same ↦
            let same_name : k ≡ name = (tells k name).0 same in
            let added = R.contains-add (entry_or same_key R.new k m) row c in
            let old : R.contains (entry_or same_key R.new k m) c
                ≡ R.contains (entry_or same_key R.new name m) c =
              ap (λ x. R.contains (entry_or same_key R.new x m) c) same_name in
            ground (arith, found, added, old)
        | inr other ↦ ground (arith, found)
      ]

  add_tags_lem :
      (tags : List Bytes) (row c : ℕ) (name : Bytes) (m : List (Bytes × Bitmap))
      → R.contains (entry_or same_bytes R.new name (add_tags R tags row m)) c
        ≡ (R.contains (entry_or same_bytes R.new name m) c || ((c == row) && has_tag_in name tags))
  unfolding add_tags has_tag_in
  add_tags_lem [] row c name m = ground arith
  add_tags_lem (t ∷ ts) row c name m =
      let here = entry-add same_bytes same_bytes_iff t name row c m in
      let rest =
        add_tags_lem ts row c name
          (insert_by same_bytes t (R.add (entry_or same_bytes R.new t m) row) m) in
      rest ∙ ap (λ b. b || ((c == row) && any (λ u. same_bytes u name) ts)) here ∙ ground arith

  add_annotations_lem :
      (ps : List Pair) (row c : ℕ) (name : Pair) (m : List (Pair × Bitmap))
      → R.contains (entry_or same_pair R.new name (add_annotations R ps row m)) c ≡ (
          R.contains (entry_or same_pair R.new name m) c
          || ((c == row) && any (λ p. same_pair p name) ps))
  unfolding add_annotations
  add_annotations_lem [] row c name m = ground arith
  add_annotations_lem (p ∷ ps) row c name m =
      let here = entry-add same_pair same_pair_iff p name row c m in
      let rest =
        add_annotations_lem ps row c name
          (insert_by same_pair p (R.add (entry_or same_pair R.new p m) row) m) in
      rest ∙ ap (λ b. b || ((c == row) && any (λ q. same_pair q name) ps)) here ∙ ground arith

  -- No bitmap of the index holds a row that it has not given out, and its rows fit 32 bits.
  pub record IsFilled (ri : RoaringIndex Bitmap) : Type 0 where
    pub no_tag :
        (name : Bytes) (c : ℕ)
        → length ri.keys ≤ c
        → R.contains (entry_or same_bytes R.new name ri.tags) c ≡ false
    pub no_annotation :
        (name : Pair) (c : ℕ)
        → length ri.keys ≤ c
        → R.contains (entry_or same_pair R.new name ri.annotations) c ≡ false
    pub no_row : (c : ℕ) → length ri.keys ≤ c → R.contains ri.all c ≡ false

  -- The event has the next row, every row keeps its event, and the rows stay filled.
  pub record IsAppended (ri ri' : RoaringIndex Bitmap) (e : Event) : Type 0 where
    pub new_row : IsIndexed R ri' (length ri.keys) e
    pub old_rows :
        (r : ℕ) (e' : Event) → r < length ri.keys → IsIndexed R ri r e' → IsIndexed R ri' r e'
    pub one_more : length ri'.keys ≡ suc (length ri.keys)
    pub stays_filled : IsFilled ri'

  -- What `indexEvent` leaves of the index.
  index_event_parts :
      (ri ri' : RoaringIndex Bitmap) (e : Event) (ts : ℕ) (is_deleted : Bool)
      → length ri.keys < 2 ^ 32
      → index_event R ri (some e) ts is_deleted ≡ some ri'
      → (ri'.all ≡ R.add ri.all (length ri.keys))
        × (ri'.tags ≡ add_tags R e.tags (length ri.keys) ri.tags)
        × (ri'.annotations ≡ add_annotations R e.annotations (length ri.keys) ri.annotations)
        × (length ri'.keys ≡ suc (length ri.keys))
  unfolding index_event
  index_event_parts ri ri' e ts is_deleted small h =
      let row : length ri.keys % 2 ^ 32 ≡ length ri.keys = mod-eq_of_lt small in
      let one =
        length-append ri.keys
          (record (event_key_from_proto e ts is_deleted) { local = true } ∷ []) in
      elim (Option-cases
        (set_value R ri.start_time (length ri.keys % 2 ^ 32) (unix e.start_time))) [
          | inl stopped ↦ absurd (ground arith)
          | inr (starts, run) ↦
              elim (Option-cases
                (set_value R ri.end_time (length ri.keys % 2 ^ 32) (unix e.end_time))) [
                  | inl stopped ↦ absurd (ground arith)
                  | inr (ends, run') ↦ ground (arith, row, one)
                ]
        ]

  -- `indexEvent` gives the event the next row with its tags and annotations, every event indexed
  -- before keeps its row, and the rows stay filled without a gap. Each annotation key of the event
  -- stands once, and there are fewer than 2 ^ 32 rows.
  pub index_event-IsAppended :
      (ri ri' : RoaringIndex Bitmap) (e : Event) (ts : ℕ) (is_deleted : Bool)
      → IsFilled ri
      → DistinctKeys e.annotations
      → length ri.keys < 2 ^ 32
      → index_event R ri (some e) ts is_deleted ≡ some ri'
      → IsAppended ri ri' e
  index_event-IsAppended ri ri' e ts is_deleted filled distinct small h =
      let row = length ri.keys in
      let (all, tags, annotations, more) = index_event_parts ri ri' e ts is_deleted small h in
      let tag_at : (name : Bytes) (c : ℕ)
          → R.contains (entry_or same_bytes R.new name ri'.tags) c ≡ (
              R.contains (entry_or same_bytes R.new name ri.tags) c
              || ((c == row) && has_tag_in name e.tags)) =
        λ name c. rw tags (add_tags_lem e.tags row c name ri.tags) in
      let annotation_at : (name : Pair) (c : ℕ)
          → R.contains (entry_or same_pair R.new name ri'.annotations) c ≡ (
              R.contains (entry_or same_pair R.new name ri.annotations) c
              || ((c == row) && has_annotation_in name.0 name.1 e.annotations)) =
        λ name c.
          rw annotations (add_annotations_lem e.annotations row c name ri.annotations)
          ∙ ap
              (λ b.
                R.contains (entry_or same_pair R.new name ri.annotations) c || ((c == row) && b))
              (any-has_annotation_in name.0 name.1 e.annotations distinct) in
      let row_at : (c : ℕ) → R.contains ri'.all c ≡ ((c == row) || R.contains ri.all c) =
        λ c. rw all (R.contains-add ri.all row c) in
      record {
        new_row = record {
          in_all = ground (arith, row_at row);
          tagged = λ name. ground (arith, tag_at name row, filled.no_tag name row (omega arith));
          annotated = λ key value. ground (
            arith,
            annotation_at (key, value) row,
            filled.no_annotation (key, value) row (omega arith),
          );
        };
        old_rows = λ r e' before old. record {
          in_all = ground (arith, row_at r, old.in_all);
          tagged = λ name. ground (arith, tag_at name r, old.tagged name);
          annotated =
              λ key value. ground (arith, annotation_at (key, value) r, old.annotated key value);
        };
        one_more = more;
        stays_filled = record {
          no_tag = λ name c after.
              ground (arith, tag_at name c, filled.no_tag name c (omega (arith, more)), more);
          no_annotation = λ name c after. ground (
            arith,
            annotation_at name c,
            filled.no_annotation name c (omega (arith, more)),
            more,
          );
          no_row = λ c after. ground (arith, row_at c, filled.no_row c (omega (arith, more)), more);
        };
      }
