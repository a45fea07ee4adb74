-- ===== src/FileTable/Search.antt =====
-- The searches of `FindFreeSlot` and `IsOpening`.
use project.Prelude.{
  ℕ, zero, suc, ◌+◌, ◌≤◌, ◌<◌, ◌≡◌, refl, ◌⊎◌, inl, inr, Bool, true, false, arith, ℤ, pos,
  minus_one, ◌==ℤ◌, if◌then◌else◌, Bool-cases, ◌==◌, ==_iff, subst,
}
use project.FileTable.{Table, slot, find_free_from, find_free_slot, is_opening_from, is_opening}

-- The number of the first slot of `[i, i + left)` that passes the test, or -1.
first_from : (ℕ → Bool) → ℕ → ℕ → ℤ
first_from p zero i = minus_one
first_from p (suc left) i = if p i then pos i else first_from p left (i + 1)

-- `r` is the first number of `[i, n)` that passes the test.
pub record First (p : ℕ → Bool) (i n : ℕ) (r : ℤ) : Type 0 where
  pub at : ℕ
  pub is_at : r ≡ pos at
  pub from : i ≤ at
  pub below : at < n
  pub passes : p at ≡ true
  pub before : (j : ℕ) → i ≤ j → j < at → p j ≡ false

-- `r` is -1, and no number of `[i, n)` passes the test.
pub record None (p : ℕ → Bool) (i n : ℕ) (r : ℤ) : Type 0 where
  pub is_none : r ≡ minus_one
  pub fails : (j : ℕ) → i ≤ j → j < n → p j ≡ false

one_more :
    (p : ℕ → Bool) (i n : ℕ)
    → p i ≡ false
    → ((j : ℕ) → i + 1 ≤ j → j < n → p j ≡ false)
    → (j : ℕ) → i ≤ j
    → j < n
    → p j ≡ false
one_more p i n h rest j a b = elim (Bool-cases (i == j)) [
  | inl e ↦ subst (λ k. p k ≡ false) ((==_iff i j).0 e) h
  | inr e ↦ rest j (ground arith) b
]

first_from_cases :
    (p : ℕ → Bool) (left i : ℕ)
    → First p i (i + left) (first_from p left i) ⊎ None p i (i + left) (first_from p left i)
unfolding first_from
first_from_cases p zero i = inr (record { is_none = refl; fails = λ j a b. absurd (omega arith) })
first_from_cases p (suc left) i = elim (Bool-cases (p i)) [
  | inl h ↦ rw h (
      inl (record {
        at = i;
        is_at = refl;
        from = omega arith;
        below = omega arith;
        passes = h;
        before = λ j a b. absurd (omega arith);
      }))
  | inr h ↦ rw h (elim (first_from_cases p left (i + 1)) [
    | inl f ↦ inl (record {
      at = f.at;
      is_at = f.is_at;
      from = omega (arith, f.from);
      below = omega (arith, f.below);
      passes = f.passes;
      before = one_more p i f.at h f.before;
    })
    | inr f ↦ inr (record {
      is_none = f.is_none;
      fails = one_more p i (i + suc left) h (λ j a b. f.fails j a (omega arith));
    })
  ])
]

abbrev pub is_free : Table → ℕ → Bool
is_free table i = (slot table i).mode ==ℤ minus_one

abbrev pub has_id : Table → ℤ → ℕ → Bool
has_id table id i = (slot table i).id ==ℤ id

find_free_from_lem :
    (table : Table) (left i : ℕ) → find_free_from table left i ≡ first_from (is_free table) left i
unfolding find_free_from first_from
find_free_from_lem table zero i = refl
find_free_from_lem table (suc left) i = rw (find_free_from_lem table left (i + 1))

is_opening_from_lem :
    (table : Table) (id : ℤ) (left i : ℕ)
    → is_opening_from table id left i ≡ first_from (has_id table id) left i
unfolding is_opening_from first_from
is_opening_from_lem table id zero i = refl
is_opening_from_lem table id (suc left) i = rw (is_opening_from_lem table id left (i + 1))

-- `FindFreeSlot` returns the lowest slot of 2..19 whose mode is -1, or -1 if there is none.
pub find_free_slot_cases :
    (table : Table)
    → First (is_free table) 2 20 (find_free_slot table)
      ⊎ None (is_free table) 2 20 (find_free_slot table)
unfolding find_free_slot
find_free_slot_cases table =
    rw (find_free_from_lem table 18 2) (first_from_cases (is_free table) 18 2)

-- `IsOpening` returns the lowest slot of 2..19 with that identifier, or -1 if there is none.
pub is_opening_cases :
    (table : Table) (id : ℤ)
    → First (has_id table id) 2 20 (is_opening table id)
      ⊎ None (has_id table id) 2 20 (is_opening table id)
unfolding is_opening
is_opening_cases table id =
    rw (is_opening_from_lem table id 18 2) (first_from_cases (has_id table id) 18 2)
