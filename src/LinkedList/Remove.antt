-- ===== src/LinkedList/Remove.antt =====
-- `List::Remove`: an item is taken out of a list.
use project.Prelude.{
  ℕ, ◌+◌, ◌-◌, ◌≡◌, refl, sym, ◌∙◌, ap, true, false, List, [], ◌∷◌, ◌++◌, Returns, arith, ◌==◌, inl,
  inr, Bool-cases, length, length-append,
}
use project.LinkedList.{LinkedList, Items, is_in, remove_front, unlink, remove_after, remove}
use project.LinkedList.Queue.{IsDistinct, IsValid, IsEquality, is_in-append, same_sym}

module _ {ℓ} {A : Type ℓ} (t : Items A) where
  -- `ys` is `xs` without one `item`.
  pub record Without (item : A) (xs ys : List A) : Type ℓ where
    pub front : List A
    pub back : List A
    pub whole : xs ≡ front ++ (item ∷ back)
    pub rest : ys ≡ front ++ back

  remove_after-Without :
      (q : IsEquality t) (item : A) (xs : List A)
      → is_in t item xs ≡ true
      → Returns (λ (ys : List A). Without item xs ys) (remove_after t item xs)
  unfolding is_in remove_after
  remove_after-Without q item [] h = cc
  remove_after-Without q item (x ∷ xs) h = elim (Bool-cases (t.same item x)) [
    | inl e ↦ rw e (record {
      out = xs;
      is_out = refl;
      holds = record {
        front = [];
        back = xs;
        whole = ap (λ (y : A). y ∷ xs) (sym (q.equal_of_same item x e));
        rest = refl;
      };
    })
    | inr e ↦
        let r = remove_after-Without q item xs (ground arith) in
        rw (e, r.is_out)
          (record {
            out = x ∷ r.out;
            is_out = refl;
            holds = record {
              front = x ∷ r.holds.front;
              back = r.holds.back;
              whole = ap (λ (l : List A). x ∷ l) r.holds.whole;
              rest = ap (λ (l : List A). x ∷ l) r.holds.rest;
            };
          })
  ]

  IsDistinct-without :
      (q : IsEquality t) (item : A) (front back : List A)
      → IsDistinct t (front ++ (item ∷ back))
      → IsDistinct t (front ++ back) × (is_in t item (front ++ back) ≡ false)
  unfolding is_in
  IsDistinct-without q item [] back d = (d.1, d.0)
  IsDistinct-without q item (x ∷ front) back d =
      let ih = IsDistinct-without q item front back d.1 in
      let both = d.0 in
      let all = is_in-append t x front (item ∷ back) in
      let s : t.same x item ≡ false = ground arith in
      (
        (is_in-append t x front back ∙ ground arith, ih.0),
        ground (arith, same_sym t q x item s, ih.1),
      )

  length-without :
      (item : A) (front back : List A)
      → length (front ++ (item ∷ back)) ≡ length (front ++ back) + 1
  length-without item front back =
      omega (arith, length-append front (item ∷ back), length-append front back)

  unlink-Without :
      (q : IsEquality t) (item : A) (n : ℕ) (xs : List A)
      → n ≡ length xs
      → is_in t item xs ≡ true
      → Returns
          (λ (l' : LinkedList A). Without item xs l'.items × (l'.num_in_list ≡ n - 1))
          (unlink t (record { items = xs; num_in_list = n }) item xs)
  unfolding is_in remove_after remove_front
  unlink-Without q item n [] e h = cc
  unlink-Without q item n (x ∷ xs) e h = elim (Bool-cases (t.same item x)) [
    | inl s ↦
        let some_left : (n == 0) ≡ false = ground arith in
        rw (s, some_left, s)
          (record {
            out = record { items = xs; num_in_list = n - 1 };
            is_out = refl;
            holds = (
              record {
                front = [];
                back = xs;
                whole = ap (λ (y : A). y ∷ xs) (sym (q.equal_of_same item x s));
                rest = refl;
              },
              refl,
            );
          })
    | inr s ↦
        let r = remove_after-Without q item xs (ground arith) in
        rw (s, r.is_out)
          (record {
            out = record { items = x ∷ r.out; num_in_list = n - 1 };
            is_out = refl;
            holds = (
              record {
                front = x ∷ r.holds.front;
                back = r.holds.back;
                whole = ap (λ (l : List A). x ∷ l) r.holds.whole;
                rest = ap (λ (l : List A). x ∷ l) r.holds.rest;
              },
              refl,
            );
          })
  ]

  -- `Remove` of an item that is in a valid list takes it out and leaves the others in their order;
  -- the list is valid and does not hold the item any more.
  pub remove_lem :
      (q : IsEquality t) (l : LinkedList A) (item : A)
      → IsValid t l
      → is_in t item l.items ≡ true
      → Returns
          (λ (l' : LinkedList A).
            IsValid t l' × Without item l.items l'.items × (is_in t item l'.items ≡ false))
          (remove t l item)
  unfolding remove
  remove_lem q l item v h =
      let r = unlink-Without q item l.num_in_list l.items v.count h in
      let w = r.holds.0 in
      let (d, g) = IsDistinct-without q item w.front w.back (rw w.whole at v.distinct) in
      let gone : is_in t item r.out.items ≡ false = rw w.rest g in
      record {
        out = r.out;
        is_out = rw (h, r.is_out, gone) refl;
        holds = (
          record {
            count = omega (
              arith,
              v.count,
              r.holds.1,
              ap length w.whole,
              ap length w.rest,
              length-without item w.front w.back,
            );
            distinct = rw w.rest d;
          },
          w,
          gone,
        );
      }
