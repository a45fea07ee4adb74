-- ===== src/Bitmap/Marks.antt =====
-- Lists of bits that are set or cleared together.
use project.Prelude.{
  ℕ, ◌<◌, ◌≡◌, refl, ap, fun_ext, Bool, true, false, ◌||◌, arith, List, [], ◌∷◌, ◌==◌,
  if◌then◌else◌, Bool-cases, ==_iff, inl, inr,
}
use project.Bitmap.View.{update}

-- `f` with every sector of the list marked, in order; with every one cleared.
unfoldable pub mark_all : List ℕ → (ℕ → Bool) → ℕ → Bool
mark_all [] f = f
mark_all (s ∷ ss) f = mark_all ss (update f s true)

unfoldable pub clear_all : List ℕ → (ℕ → Bool) → ℕ → Bool
clear_all [] f = f
clear_all (s ∷ ss) f = clear_all ss (update f s false)

unfoldable pub member : ℕ → List ℕ → Bool
member j [] = false
member j (s ∷ ss) = (s == j) || member j ss

-- The bits lie below `n`, have the value `v` in `f`, and differ from one another.
abbrev pub Each : ℕ → Bool → (ℕ → Bool) → List ℕ → Type 0
Each n v f [] = Unit {0}
Each n v f (s ∷ ss) = (s < n) × (f s ≡ v) × (member s ss ≡ false) × Each n v f ss

pub mark_all_lem : (ss : List ℕ) (f : ℕ → Bool) (j : ℕ) → mark_all ss f j ≡ (member j ss || f j)
unfolding mark_all member
mark_all_lem [] f j = refl
mark_all_lem (s ∷ ss) f j = ground (arith, mark_all_lem ss (update f s true) j)

clear_all_lem :
    (ss : List ℕ) (f : ℕ → Bool) (j : ℕ) → clear_all ss f j ≡ (if member j ss then false else f j)
unfolding clear_all member
clear_all_lem [] f j = refl
clear_all_lem (s ∷ ss) f j = ground (arith, clear_all_lem ss (update f s false) j)

pub Each-value :
    (n : ℕ) (v : Bool) (f : ℕ → Bool) (ss : List ℕ) (j : ℕ)
    → Each n v f ss
    → member j ss ≡ true
    → f j ≡ v
unfolding member
Each-value n v f [] j h m = cc
Each-value n v f (s ∷ ss) j h m = elim (Bool-cases (s == j)) [
  | inl e ↦ ground (arith, ap f ((==_iff s j).0 e))
  | inr e ↦ ground (arith, Each-value n v f ss j)
]

-- Distinct bits stay so under another map that has its value at each of them.
Each-map :
    (n : ℕ) (v w : Bool) (f g : ℕ → Bool) (ss : List ℕ)
    → ((j : ℕ) → member j ss ≡ true → g j ≡ w)
    → Each n v f ss
    → Each n w g ss
unfolding member
Each-map n v w f g [] e h = tt
Each-map n v w f g (s ∷ ss) e h =
    (h.0, e s (ground arith), h.2, Each-map n v w f g ss (λ j m. e j (ground arith)) h.3)

-- Bits that are clear in `f` after `s` is marked differ from `s` and are clear in `f`.
pub Each-cons :
    (n : ℕ) (f : ℕ → Bool) (s : ℕ) (ss : List ℕ)
    → s < n
    → f s ≡ false
    → Each n false (update f s true) ss
    → Each n false f (s ∷ ss)
Each-cons n f s ss p c h = (
  p,
  c,
  ground (arith, Each-value n false (update f s true) ss s h),
  Each-map n false false (update f s true) f ss
      (λ j m. ground (arith, Each-value n false (update f s true) ss j h)) h,
)

-- Marking clear bits and clearing them again gives the map back.
pub clear_all-mark_all :
    (n : ℕ) (f : ℕ → Bool) (ss : List ℕ) → Each n false f ss → clear_all ss (mark_all ss f) ≡ f
clear_all-mark_all n f ss h = fun_ext λ j.
    ground
      (arith, clear_all_lem ss (mark_all ss f) j, mark_all_lem ss f j, Each-value n false f ss j h)

-- What was clear is set once it is marked.
pub Each-mark_all :
    (n : ℕ) (f : ℕ → Bool) (ss : List ℕ) → Each n false f ss → Each n true (mark_all ss f) ss
Each-mark_all n f ss h =
    Each-map n false true f (mark_all ss f) ss (λ j m. ground (arith, mark_all_lem ss f j)) h

-- The rest of a list of set bits stays set when the first is cleared.
pub Each-tail :
    (n : ℕ) (f : ℕ → Bool) (s : ℕ) (ss : List ℕ)
    → Each n true f (s ∷ ss)
    → Each n true (update f s false) ss
Each-tail n f s ss h =
    Each-map n true true f (update f s false) ss
      (λ j m.
        ground (arith, Each-value n true f ss j h.3, ap (λ (k : ℕ). member k ss) {x = s} {y = j}))
      h.3
