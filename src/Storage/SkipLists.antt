-- ===== src/Storage/SkipLists.antt =====
-- `github.com/huandu/skiplist`, which memtable.go calls: the calls on a list of event keys, and what
-- their documentation says of them. Of the value of an element, a memTableItem, stands its event.
use bitstar.Base.{ℕ, ◌≡◌, List, [], ◌∷◌, Option, length, Ordering, flip}
use bitstar.Keys.Defs.{EventKey}
use bitstar.Memtable.Defs.{Event}

-- `Set` puts an element in, or gives the element whose key compares as equal the new value.
pub data IsPut (order : EventKey → EventKey → Ordering) (key : EventKey) (value : Option Event)
    : List (EventKey × Option Event) → List (EventKey × Option Event) → Type 0 where
  put_in : (xs : List (EventKey × Option Event)) → IsPut order key value xs ((key, value) ∷ xs)
  replaced :
      (old : EventKey) (old_value : Option Event) (xs : List (EventKey × Option Event))
      → order old key ≡ Ordering.eq
      → IsPut order key value ((old, old_value) ∷ xs) ((old, value) ∷ xs)
  behind :
      (x : EventKey × Option Event) {xs ys : List (EventKey × Option Event)}
      → IsPut order key value xs ys
      → IsPut order key value (x ∷ xs) (x ∷ ys)

pub record SkipLists : Type 1 where
  pub SkipList : Type 0
  -- `LessThanFunc`, `New` of a comparison, `Len` and `Set`.
  pub less_than_func : (EventKey → EventKey → Ordering) → EventKey → EventKey → Ordering
  pub new : (EventKey → EventKey → Ordering) → SkipList
  pub len : SkipList → ℕ
  pub set : SkipList → EventKey → Option Event → SkipList
  -- The comparison that the list was made with.
  pub order : SkipList → EventKey → EventKey → Ordering
  -- The elements from `Front` on by `Next`.
  pub elements : SkipList → List (EventKey × Option Event)
  pub less_than_func-flip :
      (f : EventKey → EventKey → Ordering) (a b : EventKey) → less_than_func f a b ≡ flip (f a b)
  pub order-new : (f : EventKey → EventKey → Ordering) → order (new f) ≡ f
  pub order-set : (t : SkipList) (k : EventKey) (v : Option Event) → order (set t k v) ≡ order t
  pub elements-new : (f : EventKey → EventKey → Ordering) → elements (new f) ≡ []
  pub elements-set :
      (t : SkipList) (k : EventKey) (v : Option Event)
      → IsPut (order t) k v (elements t) (elements (set t k v))
  pub len-elements : (t : SkipList) → len t ≡ length (elements t)
