-- ===== src/HashTable/Tests.antt =====
-- The theorems about hash tables, on numbers that are their own keys.
use project.Prelude.{ℕ, ◌≡◌, refl, none, some, ◌==◌, pos, arith, Returns}
use project.HashTable.{Hashing, HashTable, new_hash_table, find_in, insert, remove}
use project.HashTable.Search.{IsLawful, view}
use project.HashTable.Resize.{new-IsValid}
use project.HashTable.Insert.{Added, insert-Added}
use project.HashTable.Remove.{Removed, remove-Removed}

abbrev numbers : Hashing ℕ ℕ
numbers = record {
  items = record { same = λ a b. a == b; compare = λ a b. pos 0 };
  same_key = λ a b. a == b;
  get_key = λ a. a;
  hash = λ a. a;
}

numbers-IsLawful : IsLawful numbers
numbers-IsLawful = record {
  items = record { same_refl = λ x. ground arith; equal_of_same = λ x y e. ground arith };
  same_refl = λ x. ground arith;
  equal_of_same = λ x y e. ground arith;
}

absent : view numbers new_hash_table 5 ≡ none
unfolding find_in
absent = refl

insert-Added_example : Returns (Added numbers new_hash_table 5) (insert numbers new_hash_table 5)
insert-Added_example =
    insert-Added numbers numbers-IsLawful new_hash_table 5 (new-IsValid numbers) absent

abbrev five_inserted : Returns (Added numbers new_hash_table 5) (insert numbers new_hash_table 5)
five_inserted = insert-Added numbers numbers-IsLawful new_hash_table 5 (new-IsValid numbers) absent

abbrev with_five : HashTable ℕ
with_five = five_inserted.out

present : view numbers with_five 5 ≡ some 5
present = five_inserted.holds.viewed 5

remove-Removed_example :
    Returns
      (λ (r : ℕ × HashTable ℕ). (r.0 ≡ 5) × Removed numbers with_five 5 r.1)
      (remove numbers with_five 5)
remove-Removed_example =
    remove-Removed numbers numbers-IsLawful with_five 5 5 five_inserted.holds.valid present
