-- ===== src/LinkedList/Insert.antt =====
-- `SortedList::Insert` keeps the order, and puts an item behind those that come as early.
use project.Prelude.{
  ℕ, ◌+◌, ◌<◌, ◌≤◌, ◌≡◌, refl, ap, true, false, List, [], ◌∷◌, ◌++◌, ok, Returns, arith, ◌==◌,
  if◌then◌else◌, inl, inr, Bool-cases, ltb, length, length-append,
}
use project.LinkedList.{LinkedList, Items, is_in, before, insert_after, insert_in, insert, counted}

abbrev pub All {ℓ κ} : {A : Type ℓ} → (A → Type κ) → List A → Type κ
All P [] = Unit
All P (x ∷ xs) = P x × All P xs

-- The comparison goes by a number, and an item equals itself.
pub record IsKeyed {ℓ} {A : Type ℓ} (t : Items A) (key : A → ℕ) : Type ℓ where
  pub by_key : (x y : A) → before t x y ≡ ltb (key x) (key y)
  pub same_refl : (x : A) → t.same x x ≡ true

module _ {ℓ} {A : Type ℓ} (t : Items A) (key : A → ℕ) where
  -- In increasing order.
  abbrev pub IsSorted : List A → Type 0
  IsSorted [] = Unit
  IsSorted (x ∷ xs) = All (λ y. key x ≤ key y) xs × IsSorted xs

  -- `ys` is `xs` with `item` behind all that come no later and in front of all that come later.
  pub record Inserted (item : A) (xs ys : List A) : Type ℓ where
    pub earlier : List A
    pub later : List A
    pub parts : xs ≡ earlier ++ later
    pub result : ys ≡ earlier ++ (item ∷ later)
    pub not_after : All (λ x. key x ≤ key item) earlier
    pub after : All (λ x. key item < key x) later

  module _ (k : IsKeyed t key) where
    All-before :
        (item x : A) (xs : List A)
        → key item < key x
        → All (λ y. key x ≤ key y) xs
        → All (λ y. key item < key y) xs
    All-before item x [] h a = tt
    All-before item x (y ∷ ys) h a = (omega (arith, a.0), All-before item x ys h a.1)

    in_front :
        (item x : A) (xs : List A)
        → before t item x ≡ true
        → IsSorted (x ∷ xs)
        → Inserted item (x ∷ xs) (item ∷ x ∷ xs)
    in_front item x xs e s =
        let lt : key item < key x = ground (arith, k.by_key item x) in
        record {
          earlier = [];
          later = x ∷ xs;
          parts = refl;
          result = refl;
          not_after = tt;
          after = (lt, All-before item x xs lt s.0);
        }

    behind :
        (item x : A) (xs ys : List A)
        → before t item x ≡ false
        → Inserted item xs ys
        → Inserted item (x ∷ xs) (x ∷ ys)
    behind item x xs ys e i = record {
      earlier = x ∷ i.earlier;
      later = i.later;
      parts = ap (λ (l : List A). x ∷ l) i.parts;
      result = ap (λ (l : List A). x ∷ l) i.result;
      not_after = (ground (arith, k.by_key item x), i.not_after);
      after = i.after;
    }

    insert_after-Inserted :
        (item : A) (xs : List A) → IsSorted xs → Inserted item xs (insert_after t item xs)
    unfolding insert_after
    insert_after-Inserted item [] s = record {
      earlier = [];
      later = [];
      parts = refl;
      result = refl;
      not_after = tt;
      after = tt;
    }
    insert_after-Inserted item (x ∷ xs) s =
        let rest = insert_after-Inserted item xs s.1 in
        elim (Bool-cases (before t item x)) [
          | inl e ↦ rw e (in_front item x xs e s)
          | inr e ↦ rw e (behind item x xs (insert_after t item xs) e rest)
        ]

  All-insert :
      (P : A → Type 0) (item : A) (xs ys : List A)
      → P item
      → All P (xs ++ ys)
      → All P (xs ++ (item ∷ ys))
  All-insert P item [] ys h a = (h, a)
  All-insert P item (x ∷ xs) ys h a = (a.0, All-insert P item xs ys h a.1)

  not_later :
      (item : A) (ys : List A) → All (λ y. key item < key y) ys → All (λ y. key item ≤ key y) ys
  not_later item [] a = tt
  not_later item (y ∷ ys) a = (omega (arith, a.0), not_later item ys a.1)

  IsSorted-insert :
      (item : A) (xs ys : List A)
      → IsSorted (xs ++ ys)
      → All (λ x. key x ≤ key item) xs
      → All (λ y. key item < key y) ys
      → IsSorted (xs ++ (item ∷ ys))
  IsSorted-insert item [] ys s a b = (not_later item ys b, s)
  IsSorted-insert item (x ∷ xs) ys s a b =
      (All-insert (λ y. key x ≤ key y) item xs ys a.0 s.0, IsSorted-insert item xs ys s.1 a.1 b)

  is_in-with :
      (k : IsKeyed t key) (item : A) (xs ys : List A) → is_in t item (xs ++ (item ∷ ys)) ≡ true
  unfolding is_in
  is_in-with k item [] ys = ground (arith, k.same_refl item)
  is_in-with k item (x ∷ xs) ys = ground (arith, is_in-with k item xs ys)

  -- The count is right, and the items come in order.
  pub record IsSortedList (l : LinkedList A) : Type 0 where
    pub count : l.num_in_list ≡ length l.items
    pub order : IsSorted l.items

  counted_insert :
      (k : IsKeyed t key) (item : A) (l : LinkedList A) (ys : List A)
      → IsSortedList l
      → Inserted item l.items ys
      → Returns
          (λ (l' : LinkedList A). IsSortedList l' × Inserted item l.items l'.items)
          (counted t item l.num_in_list ys)
  counted_insert k item l ys v i =
      let present : is_in t item ys ≡ true = rw i.result (is_in-with k item i.earlier i.later) in
      record {
        out = record { items = ys; num_in_list = l.num_in_list + 1 };
        is_out = rw present refl;
        holds = (
          record {
            count = omega (
              arith,
              v.count,
              ap length i.parts,
              ap length i.result,
              length-append i.earlier i.later,
              length-append i.earlier (item ∷ i.later),
            );
            order = rw i.result (
                IsSorted-insert item i.earlier i.later (rw i.parts at v.order) i.not_after i.after);
          },
          i,
        );
      }

  placed :
      (item : A) (n : ℕ) (xs : List A)
      → n ≡ length xs
      → (if n == 0 then ok (item ∷ []) else insert_in t item xs) ≡ ok (insert_after t item xs)
  unfolding insert_after
  placed item n [] e = rw e refl
  placed item n (x ∷ xs) e = let more : (n == 0) ≡ false = ground arith in rw more refl

  -- `SortedList::Insert` of an item that is not yet in a sorted list whose count is right returns: the
  -- list is sorted again with the right count, and holds the same items with the new one behind all
  -- that come no later and in front of all that come later.
  pub insert-Inserted :
      (l : LinkedList A) (item : A)
      → IsKeyed t key
      → IsSortedList l
      → is_in t item l.items ≡ false
      → Returns
          (λ (l' : LinkedList A). IsSortedList l' × Inserted item l.items l'.items)
          (insert t l item)
  unfolding insert insert_after
  insert-Inserted l item k v new =
      rw (new, placed item l.num_in_list l.items v.count)
        (counted_insert k item l (insert_after t item l.items) v
          (insert_after-Inserted k item l.items v.order))
