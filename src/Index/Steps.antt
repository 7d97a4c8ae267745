-- ===== src/Index/Steps.antt =====
-- The loops of `evalFilter` and `matchMemTableItem`, step by step: what the bitmap of the index and the
-- answer for an item have to do with each other at one row.
use bitstar.Base.{
  ℕ, Bool, true, false, ◌&&◌, ◌||◌, Option, some, ◌≡◌, refl, sym, ap, ◌∙◌, arith, if◌then◌else◌,
}
use bitstar.Roaring.{Roaring}
use bitstar.Memtable.Defs.{Outcome, ok, err, ◌>>=◌}
use bitstar.Index.Defs.{and_into, or_into}

module _ (R : Roaring) (r : ℕ) where
  open R use {Bitmap}

  -- A bitmap came out, and the match of the item is whether it holds the row.
  pub record Agrees (result : Option Bitmap) (matched : Outcome Bool) : Type 0 where
    pub bitmap : Bitmap
    pub found : result ≡ some bitmap
    pub same_answer : matched ≡ ok (R.contains bitmap r)

  -- The same of the rest of a conjunction that starts from the bitmap `res`.
  pub record AgreesAnd (res : Bitmap) (result : Option Bitmap) (matched : Outcome Bool)
      : Type 0 where
    pub bitmap : Bitmap
    pub rest : Bool
    pub found : result ≡ some bitmap
    pub same_answer : matched ≡ ok rest
    pub together : R.contains bitmap r ≡ (R.contains res r && rest)

  pub record AgreesOr (res : Bitmap) (result : Option Bitmap) (matched : Outcome Bool)
      : Type 0 where
    pub bitmap : Bitmap
    pub rest : Bool
    pub found : result ≡ some bitmap
    pub same_answer : matched ≡ ok rest
    pub together : R.contains bitmap r ≡ (R.contains res r || rest)

  -- The step of a loop of conjunctions, first and later.
  pub first_and :
      (x : Outcome (Option Bitmap)) (k : Option Bitmap → Outcome (Option Bitmap))
      (m rest : Outcome Bool) (result : Option Bitmap)
      → ((found : Option Bitmap) → x ≡ ok found → Agrees found m)
      → ((res : Bitmap) → k (some res) ≡ ok result → AgreesAnd res result rest)
      → (x >>= k) ≡ ok result
      → Agrees result (m >>= λ matched. if matched then rest else ok false)
  first_and (err y) k m rest result here later h = absurd (ground arith)
  first_and (ok found) k m rest result here later h =
      let a = here found refl in
      let l = later a.bitmap (ap k (sym a.found) ∙ h) in
      record {
        bitmap = l.bitmap;
        found = l.found;
        same_answer = ground (arith, a.same_answer, l.same_answer, l.together);
      }

  pub next_and :
      (x : Outcome (Option Bitmap)) (k : Option Bitmap → Outcome (Option Bitmap))
      (m rest : Outcome Bool) (res : Bitmap) (result : Option Bitmap)
      → ((found : Option Bitmap) → x ≡ ok found → Agrees found m)
      → ((res : Bitmap) → k (some res) ≡ ok result → AgreesAnd res result rest)
      → (x >>= λ found. k (and_into R (some res) found)) ≡ ok result
      → AgreesAnd res result (m >>= λ matched. if matched then rest else ok false)
  next_and (err y) k m rest res result here later h = absurd (ground arith)
  next_and (ok found) k m rest res result here later h =
      let a = here found refl in
      let l =
        later (R.and res a.bitmap) (ap (λ f. k (and_into R (some res) f)) (sym a.found) ∙ h) in
      let both = R.contains-and res a.bitmap r in
      record {
        bitmap = l.bitmap;
        rest = R.contains a.bitmap r && l.rest;
        found = l.found;
        same_answer = ground (arith, a.same_answer, l.same_answer);
        together = ground (arith, l.together, both);
      }

  -- The same of disjunctions.
  pub first_or :
      (x : Outcome (Option Bitmap)) (k : Option Bitmap → Outcome (Option Bitmap))
      (m rest : Outcome Bool) (result : Option Bitmap)
      → ((found : Option Bitmap) → x ≡ ok found → Agrees found m)
      → ((res : Bitmap) → k (some res) ≡ ok result → AgreesOr res result rest)
      → (x >>= k) ≡ ok result
      → Agrees result (m >>= λ matched. if matched then ok true else rest)
  first_or (err y) k m rest result here later h = absurd (ground arith)
  first_or (ok found) k m rest result here later h =
      let a = here found refl in
      let l = later a.bitmap (ap k (sym a.found) ∙ h) in
      record {
        bitmap = l.bitmap;
        found = l.found;
        same_answer = ground (arith, a.same_answer, l.same_answer, l.together);
      }

  pub next_or :
      (x : Outcome (Option Bitmap)) (k : Option Bitmap → Outcome (Option Bitmap))
      (m rest : Outcome Bool) (res : Bitmap) (result : Option Bitmap)
      → ((found : Option Bitmap) → x ≡ ok found → Agrees found m)
      → ((res : Bitmap) → k (some res) ≡ ok result → AgreesOr res result rest)
      → (x >>= λ found. k (or_into R (some res) found)) ≡ ok result
      → AgreesOr res result (m >>= λ matched. if matched then ok true else rest)
  next_or (err y) k m rest res result here later h = absurd (ground arith)
  next_or (ok found) k m rest res result here later h =
      let a = here found refl in
      let l = later (R.or res a.bitmap) (ap (λ f. k (or_into R (some res) f)) (sym a.found) ∙ h) in
      let both = R.contains-or res a.bitmap r in
      record {
        bitmap = l.bitmap;
        rest = R.contains a.bitmap r || l.rest;
        found = l.found;
        same_answer = ground (arith, a.same_answer, l.same_answer);
        together = ground (arith, l.together, both);
      }
