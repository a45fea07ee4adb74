-- ===== src/LinkedList/Tests.antt =====
-- The theorems about lists, on lists of numbers.
use project.Prelude.{ℕ, refl, [], ◌∷◌, Returns, ltb, ◌==◌, if◌then◌else◌, pos, negsuc, arith}
use project.LinkedList.{LinkedList, Items, is_in, insert}
use project.LinkedList.Insert.{IsKeyed, IsSortedList, Inserted, insert-Inserted}

abbrev numbers : Items ℕ
numbers = record {
  same = λ x y. x == y;
  compare = λ x y. if ltb x y then negsuc 0 else if ltb y x then pos 1 else pos 0;
}

numbers-IsKeyed : IsKeyed numbers (λ x. x)
numbers-IsKeyed = record { by_key = λ x y. ground arith; same_refl = λ x. ground arith }

abbrev two : LinkedList ℕ
two = record { items = 3 ∷ 8 ∷ []; num_in_list = 2 }

insert-Inserted_example :
    Returns
      (λ (l : LinkedList ℕ).
        IsSortedList numbers (λ x. x) l × Inserted numbers (λ x. x) 5 (3 ∷ 8 ∷ []) l.items)
      (insert numbers two 5)
unfolding is_in
insert-Inserted_example =
    insert-Inserted numbers (λ x. x) two 5 numbers-IsKeyed
      (record { count = refl; order = ((omega arith, tt), (tt, tt)) }) refl
