-- ===== src/SemaphoreTable/Search.antt =====
-- The search for a semaphore by its name.
use project.Prelude.{
  ℕ, zero, suc, ◌+◌, ◌≤◌, ◌<◌, ◌≡◌, refl, sym, ◌∙◌, ap, true, false, List, Option, none, some,
  arith, Exec, ok, ◌==◌, ◌⊎◌, inl, inr, Bool-cases, length, get_elem?,
}
use project.Bitmap.View
use project.Bitmap.View.{bit}
use project.Bitmap.Laws.{test_lem}
use project.CString.{str_same}
use project.SemaphoreTable.{SemaphoreTable, Sem, max_semaphore, find_sem}

abbrev pub Holds : SemaphoreTable → ℕ → Sem → Type 0
Holds t i s = get_elem? t.sem_tab i ≡ some (some s)

-- Every slot that is marked holds a semaphore.
pub record IsValid (t : SemaphoreTable) : Type 0 where
  pub bitmap : View.IsValid t.bm
  pub bits : t.bm.num_bits ≡ max_semaphore
  pub slots : length t.sem_tab ≡ max_semaphore
  pub filled : (i : ℕ) → i < max_semaphore → bit t.bm i ≡ true → (s : Sem) × Holds t i s

-- No marked slot from `i` on holds a semaphore of the name.
abbrev pub Unused : SemaphoreTable → List ℕ → ℕ → Type 0
Unused t name i =
    (j : ℕ) (s : Sem)
    → i ≤ j
    → j < max_semaphore
    → bit t.bm j ≡ true
    → Holds t j s
    → str_same name s.name ≡ false

-- The lowest marked slot from `i` on with a semaphore of the name.
pub record Hit (t : SemaphoreTable) (name : List ℕ) (i : ℕ) (r : Exec (Option (ℕ × Sem)))
    : Type 0 where
  pub at : ℕ
  pub sem : Sem
  pub returns : r ≡ ok (some (at, sem))
  pub in_range : at < max_semaphore
  pub marked : bit t.bm at ≡ true
  pub holds : Holds t at sem
  pub named : str_same name sem.name ≡ true

pub record Miss (t : SemaphoreTable) (name : List ℕ) (i : ℕ) (r : Exec (Option (ℕ × Sem)))
    : Type 0 where
  pub returns : r ≡ ok none
  pub unused : Unused t name i

module _ (t : SemaphoreTable) (v : IsValid t) (name : List ℕ) where
  step_clear :
      (left i : ℕ)
      → i < max_semaphore
      → bit t.bm i ≡ false
      → find_sem t name (suc left) i ≡ find_sem t name left (i + 1)
  unfolding find_sem
  step_clear left i h c = rw (test_lem i v.bitmap (omega (arith, v.bits)), c) refl

  step_other :
      (left i : ℕ) (s : Sem)
      → i < max_semaphore
      → bit t.bm i ≡ true
      → Holds t i s
      → str_same name s.name ≡ false
      → find_sem t name (suc left) i ≡ find_sem t name left (i + 1)
  unfolding find_sem
  step_other left i s h c at n = rw (test_lem i v.bitmap (omega (arith, v.bits)), c, at, n) refl

  step_found :
      (left i : ℕ) (s : Sem)
      → i < max_semaphore
      → bit t.bm i ≡ true
      → Holds t i s
      → str_same name s.name ≡ true
      → find_sem t name (suc left) i ≡ ok (some (i, s))
  unfolding find_sem
  step_found left i s h c at n = rw (test_lem i v.bitmap (omega (arith, v.bits)), c, at, n) refl

  -- The search from `i` goes on after slot `i`.
  extend :
      (left i : ℕ)
      → find_sem t name (suc left) i ≡ find_sem t name left (i + 1)
      → ((s : Sem) → bit t.bm i ≡ true → Holds t i s → str_same name s.name ≡ false)
      → Hit t name (i + 1) (find_sem t name left (i + 1))
        ⊎ Miss t name (i + 1) (find_sem t name left (i + 1))
      → Hit t name i (find_sem t name (suc left) i) ⊎ Miss t name i (find_sem t name (suc left) i)
  extend left i e here (inl f) = inl (record {
    at = f.at;
    sem = f.sem;
    returns = e ∙ f.returns;
    in_range = f.in_range;
    marked = f.marked;
    holds = f.holds;
    named = f.named;
  })
  extend left i e here (inr f) = inr (record {
    returns = e ∙ f.returns;
    unused = λ j s from inside b at. elim (Bool-cases (j == i)) [
      | inl q ↦
          let same : j ≡ i = ground arith in
          here s (ap (λ (k : ℕ). bit t.bm k) (sym same) ∙ b)
            (ap (λ (k : ℕ). get_elem? t.sem_tab k) (sym same) ∙ at)
      | inr q ↦ f.unused j s (ground arith) inside b at
    ];
  })

  pub find_sem_cases :
      (left i : ℕ)
      → i + left ≡ max_semaphore
      → Hit t name i (find_sem t name left i) ⊎ Miss t name i (find_sem t name left i)
  unfolding find_sem
  find_sem_cases zero i e =
      inr (record { returns = refl; unused = λ j s from inside b at. absurd (omega arith) })
  find_sem_cases (suc left) i e =
      let inside : i < max_semaphore = omega arith in
      let rest = find_sem_cases left (i + 1) (omega arith) in
      elim (Bool-cases (bit t.bm i)) [
        | inr c ↦
            extend left i (step_clear left i inside c) (λ s b at. absurd (let d = c in cc)) rest
        | inl b ↦
            let (s, at) = v.filled i inside b in
            elim (Bool-cases (str_same name s.name)) [
              | inl n ↦ inl (record {
                at = i;
                sem = s;
                returns = step_found left i s inside b at n;
                in_range = inside;
                marked = b;
                holds = at;
                named = n;
              })
              | inr n ↦
                  extend left i (step_other left i s inside b at n)
                    (λ s' b' at'.
                      let same : s ≡ s' = cc in
                      ap (λ (u : Sem). str_same name u.name) (sym same) ∙ n)
                    rest
            ]
      ]
