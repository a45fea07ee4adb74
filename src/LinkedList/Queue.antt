-- ===== src/LinkedList/Queue.antt =====
-- `List::Append`: a list of distinct items is a queue.
use project.Prelude.{
  ℕ, ◌+◌, ◌≡◌, refl, ◌∙◌, true, false, ◌||◌, List, [], ◌∷◌, ◌++◌, Returns, ok, arith, ◌==◌,
  if◌then◌else◌, inl, inr, Bool-cases, length, length-append,
}
use project.LinkedList.{LinkedList, Items, is_in, at_end, append}

module _ {ℓ} {A : Type ℓ} (t : Items A) where
  -- Every item is there once.
  abbrev pub IsDistinct : List A → Type 0
  IsDistinct [] = Unit
  IsDistinct (x ∷ xs) = (is_in t x xs ≡ false) × IsDistinct xs

  -- The count is right, and no item is there twice.
  pub record IsValid (l : LinkedList A) : Type 0 where
    pub count : l.num_in_list ≡ length l.items
    pub distinct : IsDistinct l.items

  -- `==` on items is an equality.
  pub record IsEquality : Type ℓ where
    pub same_refl : (x : A) → t.same x x ≡ true
    pub equal_of_same : (x y : A) → t.same x y ≡ true → x ≡ y

  pub is_in-append :
      (item : A) (xs ys : List A) → is_in t item (xs ++ ys) ≡ (is_in t item xs || is_in t item ys)
  unfolding is_in
  is_in-append item [] ys = refl
  is_in-append item (x ∷ xs) ys = ground (arith, is_in-append item xs ys)

  pub same_sym : IsEquality → (x y : A) → t.same x y ≡ false → t.same y x ≡ false
  same_sym q x y h = elim (Bool-cases (t.same y x)) [
    | inl e ↦ let p = rw (q.equal_of_same y x e) at h in absurd (let r = q.same_refl x in cc)
    | inr e ↦ e
  ]

  IsDistinct-append :
      (q : IsEquality) (item : A) (xs : List A)
      → is_in t item xs ≡ false
      → IsDistinct xs
      → IsDistinct (xs ++ (item ∷ []))
  unfolding is_in
  IsDistinct-append q item [] h d = (refl, tt)
  IsDistinct-append q item (x ∷ xs) h d =
      let s : t.same item x ≡ false = ground arith in
      (
        is_in-append x xs (item ∷ []) ∙ rw (d.0, same_sym q item x s) refl,
        IsDistinct-append q item xs (ground arith) d.1,
      )

  present_last : IsEquality → (item : A) (xs : List A) → is_in t item (xs ++ (item ∷ [])) ≡ true
  unfolding is_in
  present_last q item xs = is_in-append item xs (item ∷ []) ∙ ground (arith, q.same_refl item)

  at_end_lem :
      (item : A) (n : ℕ) (xs : List A)
      → n ≡ length xs
      → (if n == 0 then ok (item ∷ []) else at_end t item xs) ≡ ok (xs ++ (item ∷ []))
  at_end_lem item n [] e = rw e refl
  at_end_lem item n (x ∷ xs) e = let more : (n == 0) ≡ false = ground arith in rw more refl

  -- `Append` puts an item that is not yet in a valid list at its end.
  pub append_lem :
      (q : IsEquality) (l : LinkedList A) (item : A)
      → IsValid l
      → is_in t item l.items ≡ false
      → Returns
          (λ (l' : LinkedList A). IsValid l' × (l'.items ≡ l.items ++ (item ∷ [])))
          (append t l item)
  unfolding append
  append_lem q l item v new = record {
    out = record { items = l.items ++ (item ∷ []); num_in_list = l.num_in_list + 1 };
    is_out =
        rw (new, at_end_lem item l.num_in_list l.items v.count, present_last q item l.items) refl;
    holds = (
      record {
        count = omega (arith, v.count, length-append l.items (item ∷ []));
        distinct = IsDistinct-append q item l.items new v.distinct;
      },
      refl,
    );
  }
