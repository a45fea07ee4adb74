-- ===== src/FileHeader/Sectors.antt =====
-- The sectors that the array of a header holds.
use project.Prelude.{ℕ, ◌+◌, ◌≡◌, List, [], ◌∷◌, ℤ, pos, some, get_elem?}

-- The array holds the sectors from index `i` on.
abbrev pub Holds : List ℤ → ℕ → List ℕ → Type 0
Holds d i [] = Unit {0}
Holds d i (s ∷ ss) = (get_elem? d i ≡ some (pos s)) × Holds d (i + 1) ss
