-- ===== src/LinkedList.antt =====
-- lib/list.h and lib/list.cc: `List` and `SortedList`. The links from element to element are the
-- order of a list, from `first` to `last`; the count is a variable of its own, as in the code, and
-- `IsEmpty` goes by it. An item is compared by a parameter, as the template has it.
pub mod Insert
pub mod Queue
pub mod Remove
mod Tests
use project.Prelude.{
  ℕ, ◌+◌, ◌-◌, Bool, true, false, not, ◌||◌, List, [], ◌∷◌, ◌++◌, Exec, ok, aborted, undefined,
  ◌>>=◌, ◌>>◌, assert, ◌==◌, if◌then◌else◌, ℤ, ltb_ℤ, pos,
}

pub record LinkedList {ℓ} (A : Type ℓ) : Type ℓ where
  pub items : List A
  pub num_in_list : ℕ

-- What the template takes from its items: `==`, and the function that `SortedList` is made with.
pub record Items {ℓ} (A : Type ℓ) : Type ℓ where
  pub same : A → A → Bool
  pub compare : A → A → ℤ

abbrev pub new_list {ℓ} : {A : Type ℓ} → LinkedList A
new_list = record { items = []; num_in_list = 0 }

module _ {ℓ} {A : Type ℓ} where
  abbrev pub is_empty : LinkedList A → Bool
  is_empty l = l.num_in_list == 0

  -- `first->item`
  abbrev pub front : LinkedList A → Exec A
  front l = elim l.items [ [] ↦ undefined | x ∷ rest ↦ ok x ]

  unfoldable pub remove_front : LinkedList A → Exec (A × LinkedList A)
  remove_front l = assert (not (is_empty l)) >> elim l.items [
    | [] ↦ undefined
    | x ∷ rest ↦ ok (x, record { items = rest; num_in_list = l.num_in_list - 1 })
  ]

module _ {ℓ} {A : Type ℓ} (t : Items A) where
  unfoldable pub is_in : A → List A → Bool
  is_in item [] = false
  is_in item (x ∷ xs) = t.same item x || is_in item xs

  abbrev pub is_in_list : LinkedList A → A → Bool
  is_in_list l item = is_in item l.items

  -- `last->next = element` needs a last element.
  abbrev pub at_end : A → List A → Exec (List A)
  at_end item [] = undefined
  at_end item (x ∷ xs) = ok ((x ∷ xs) ++ (item ∷ []))

  abbrev pub counted : A → ℕ → List A → Exec (LinkedList A)
  counted item n items =
      assert (is_in item items) >> ok (record { items = items; num_in_list = n + 1 })

  unfoldable pub append : LinkedList A → A → Exec (LinkedList A)
  unfolding is_in
  append l item =
      assert (not (is_in_list l item))
      >> ((if is_empty l then ok (item ∷ []) else at_end item l.items)
          >>= counted item l.num_in_list)

  unfoldable pub prepend : LinkedList A → A → Exec (LinkedList A)
  unfolding is_in
  prepend l item =
      assert (not (is_in_list l item))
      >> counted item l.num_in_list (if is_empty l then item ∷ [] else item ∷ l.items)

  -- `compare(item, x) < 0`
  abbrev pub before : A → A → Bool
  before item x = ltb_ℤ (t.compare item x) (pos 0)

  -- The loop of `Insert` after the element `ptr`: in front of the first item that is greater, or at
  -- the end.
  unfoldable pub insert_after : A → List A → List A
  insert_after item [] = item ∷ []
  insert_after item (x ∷ xs) =
      let rest = insert_after item xs in if before item x then item ∷ x ∷ xs else x ∷ rest

  abbrev pub insert_in : A → List A → Exec (List A)
  insert_in item [] = undefined
  insert_in item (x ∷ xs) = ok (if before item x then item ∷ x ∷ xs else x ∷ insert_after item xs)

  -- The return inside the loop skips the last ASSERT, which holds where an item equals itself.
  unfoldable pub insert : LinkedList A → A → Exec (LinkedList A)
  unfolding is_in insert_after
  insert l item =
      assert (not (is_in_list l item))
      >> ((if is_empty l then ok (item ∷ []) else insert_in item l.items)
          >>= counted item l.num_in_list)

  -- The loop of `Remove` after the first element. ASSERT(ptr != NULL) fails at the end of the list.
  unfoldable pub remove_after : A → List A → Exec (List A)
  remove_after item [] = aborted
  remove_after item (x ∷ xs) =
      let rest = remove_after item xs in
      if t.same item x then ok xs else (rest >>= λ ys. ok (x ∷ ys))

  abbrev pub checked_front : A → A × LinkedList A → Exec (LinkedList A)
  checked_front item (removed, l) = assert (t.same item removed) >> ok l

  abbrev pub unlink : LinkedList A → A → List A → Exec (LinkedList A)
  unlink l item [] = undefined
  unlink l item (x ∷ xs) =
      if t.same item x
      then remove_front l >>= checked_front item
      else (remove_after item xs >>= λ ys.
          ok (record { items = x ∷ ys; num_in_list = l.num_in_list - 1 }))

  unfoldable pub remove : LinkedList A → A → Exec (LinkedList A)
  unfolding is_in remove_after remove_front
  remove l item =
      assert (is_in_list l item)
      >> (unlink l item l.items >>= λ l'. assert (not (is_in_list l' item)) >> ok l')
