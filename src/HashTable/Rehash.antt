-- ===== src/HashTable/Rehash.antt =====
-- `ReHash` keeps the map.
use project.Prelude.{
  ℕ, zero, suc, ◌+◌, ◌-◌, ◌≡◌, refl, sym, fun_ext, ◌∙◌, ap, true, false, List, [], ◌∷◌, Option,
  none, arith, ◌==◌, inl, inr, Bool-cases, Exec, ok, ◌>>=◌, length, Returns, Returns->>=,
}
use project.LinkedList.{remove_front}
use project.HashTable.{Hashing, HashTable, is_some, find_in, place, move_items}
use project.HashTable.Search.{IsLawful, KeysDistinct, IsPlaced, view}
use project.HashTable.Place.{or_else, or_else-none, total, Grown, place-Grown}

module _ {ℓ} {A K : Type ℓ} (h : Hashing A K) where
  -- The two nested loops of `ReHash` as one, over items.
  unfoldable pub place_all : List A → HashTable A → Exec (HashTable A)
  place_all [] t = ok t
  place_all (x ∷ xs) t = place h t x >>= place_all xs

  pub move_items-place_all :
      (xs : List A) (n : ℕ) (t : HashTable A)
      → n ≡ length xs
      → move_items h n t (record { items = xs; num_in_list = n }) ≡ place_all xs t
  unfolding move_items place_all remove_front
  move_items-place_all [] zero t e = refl
  move_items-place_all [] (suc n) t e = absurd (omega arith)
  move_items-place_all (x ∷ xs) zero t e = absurd (omega arith)
  move_items-place_all (x ∷ xs) (suc n) t e =
      let more : (suc n == 0) ≡ false = ground arith in
      let less : suc n - 1 ≡ n = omega arith in
      rw (more, less)
        (ap (λ (k : HashTable A → Exec (HashTable A)). place h t x >>= k)
          (fun_ext (λ t'. move_items-place_all xs n t' (omega arith))))

  -- What was moved, and what remains.
  pub record Moved (t : HashTable A) (xs : List A) (t' : HashTable A) : Type ℓ where
    pub placed : IsPlaced h t'
    pub same_width : t'.num_buckets ≡ t.num_buckets
    pub same_count : t'.num_items ≡ t.num_items
    pub viewed : (q : K) → view h t' q ≡ or_else (view h t q) (find_in h xs q)
    pub counted : total t'.buckets ≡ total t.buckets + length xs

  later-apart :
      (w : IsLawful h) (x : A) (xs : List A) (t t1 : HashTable A)
      → Grown h t x t1
      → find_in h xs (h.get_key x) ≡ none
      → ((q : K) → is_some (find_in h (x ∷ xs) q) ≡ true → view h t q ≡ none)
      → (q : K) → is_some (find_in h xs q) ≡ true
      → view h t1 q ≡ none
  unfolding find_in
  later-apart w x xs t t1 g d apart q e = elim (Bool-cases (h.same_key q (h.get_key x))) [
    | inl s ↦
        let p = ap (find_in h xs) (w.equal_of_same q (h.get_key x) s) ∙ d in
        let r = ap is_some p in absurd cc
    | inr s ↦ g.viewed q ∙ rw s (apart q (rw s e))
  ]

  joined-view :
      (w : IsLawful h) (x : A) (xs : List A) (t t1 out : HashTable A)
      → Grown h t x t1
      → view h t (h.get_key x) ≡ none
      → (q : K) → view h out q ≡ or_else (view h t1 q) (find_in h xs q)
      → view h out q ≡ or_else (view h t q) (find_in h (x ∷ xs) q)
  unfolding find_in
  joined-view w x xs t t1 out g free q e =
      e
      ∙ ap (λ (o : Option A). or_else o (find_in h xs q)) (g.viewed q)
      ∙ elim (Bool-cases (h.same_key q (h.get_key x))) [
        | inl s ↦
            let absent = ap (view h t) (w.equal_of_same q (h.get_key x) s) ∙ free in
            rw (s, absent) refl
        | inr s ↦ rw s refl
      ]

  pub place_all-Moved :
      (w : IsLawful h) (xs : List A) (t : HashTable A)
      → IsPlaced h t
      → KeysDistinct h xs
      → ((q : K) → is_some (find_in h xs q) ≡ true → view h t q ≡ none)
      → Returns (Moved t xs) (place_all xs t)
  unfolding place_all find_in
  place_all-Moved w [] t v d apart = record {
    out = t;
    is_out = refl;
    holds = record {
      placed = v;
      same_width = refl;
      same_count = refl;
      viewed = λ q. sym (or_else-none (view h t q));
      counted = omega arith;
    };
  }
  place_all-Moved w (x ∷ xs) t v d apart =
      let free = apart (h.get_key x) (rw (w.same_refl (h.get_key x)) refl) in
      Returns->>= (Grown h t x) (Moved t (x ∷ xs)) (place h t x) (place_all xs)
        (place-Grown h w t x v free)
        (λ t1 g.
          let rest = place_all-Moved w xs t1 g.placed d.1 (later-apart w x xs t t1 g d.0 apart) in
          record {
            out = rest.out;
            is_out = rest.is_out;
            holds = record {
              placed = rest.holds.placed;
              same_width = rest.holds.same_width ∙ g.same_width;
              same_count = rest.holds.same_count ∙ g.same_count;
              viewed = λ q. joined-view w x xs t t1 rest.out g free q (rest.holds.viewed q);
              counted = omega (arith, rest.holds.counted, g.one_more);
            };
          })
