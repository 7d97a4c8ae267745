-- ===== src/Roaring/Order.antt =====
-- The order in which a bitmap's iterators give its numbers.
use bitstar.Base.{ℕ, ◌<◌, List, [], ◌∷◌}

-- Each number is above those before it.
abbrev pub Ascending : List ℕ → Type 0
Ascending [] = Unit
Ascending (x ∷ []) = Unit
Ascending (x ∷ y ∷ xs) = (x < y) × Ascending (y ∷ xs)
