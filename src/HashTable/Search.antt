-- ===== src/HashTable/Search.antt =====
-- The table as a map from keys to items, and `Find`.
use project.Prelude.{
  ℕ, ◌%◌, ◌<◌, ◌≡◌, refl, sym, ap, true, false, List, [], ◌∷◌, Option, none, arith, ◌==◌, inl, inr,
  Bool-cases, ok, get_elem?-eq-get_or, get_or, length, lt→ltb,
}
use native.Mathlib.Nat.{mod-lt}
use project.LinkedList.{LinkedList, is_in, new_list}
use project.LinkedList.Queue
use project.LinkedList.Queue.{IsEquality}
use project.HashTable.{Hashing, HashTable, hash_value, find_in, find}

module _ {ℓ} {A K : Type ℓ} (h : Hashing A K) where
  -- `==` is an equality, on items and on keys.
  pub record IsLawful : Type ℓ where
    pub items : IsEquality h.items
    pub same_refl : (k : K) → h.same_key k k ≡ true
    pub equal_of_same : (j k : K) → h.same_key j k ≡ true → j ≡ k

  -- No two items have the same key.
  abbrev pub KeysDistinct : List A → Type ℓ
  KeysDistinct [] = Unit
  KeysDistinct (x ∷ xs) = (find_in h xs (h.get_key x) ≡ none) × KeysDistinct xs

  -- Every item belongs in bucket `i` of `n`.
  abbrev pub Home : ℕ → ℕ → List A → Type 0
  Home n i [] = Unit
  Home n i (x ∷ xs) = (h.hash (h.get_key x) % n ≡ i) × Home n i xs

  pub record Bucket (n i : ℕ) (l : LinkedList A) : Type ℓ where
    pub list : Queue.IsValid h.items l
    pub home : Home n i l.items
    pub keys : KeysDistinct l.items

  -- Every item is in its bucket, and none is there twice.
  pub record IsPlaced (t : HashTable A) : Type ℓ where
    pub some_buckets : 0 < t.num_buckets
    pub width : length t.buckets ≡ t.num_buckets
    pub bucket : (i : ℕ) → i < t.num_buckets → Bucket t.num_buckets i (get_or t.buckets i new_list)

  -- The bucket of a key, and the item under a key.
  abbrev pub home : HashTable A → K → ℕ
  home t q = h.hash q % t.num_buckets

  abbrev pub view : HashTable A → K → Option A
  view t q = find_in h (get_or t.buckets (home t q) new_list).items q

  pub home-lt : (t : HashTable A) (q : K) → 0 < t.num_buckets → home t q < t.num_buckets
  home-lt t q p = mod-lt (h.hash q) p

  pub hash_value_lem :
      (t : HashTable A) (q : K) → 0 < t.num_buckets → hash_value h t q ≡ ok (home t q)
  unfolding hash_value
  hash_value_lem t q p =
      let more : (t.num_buckets == 0) ≡ false = ground arith in
      rw (more, lt→ltb (home t q) t.num_buckets (home-lt t q p)) refl

  pub find_lem : (t : HashTable A) (q : K) → IsPlaced t → find h t q ≡ ok (view t q)
  unfolding find
  find_lem t q v =
      rw
        (
          hash_value_lem t q v.some_buckets,
          get_elem?-eq-get_or t.buckets (home t q) new_list
              (omega (arith, v.width, home-lt t q v.some_buckets)),
        )
        refl

  pub find_in-present :
      (w : IsLawful) (item : A) (xs : List A)
      → find_in h xs (h.get_key item) ≡ none
      → is_in h.items item xs ≡ false
  unfolding find_in is_in
  find_in-present w item [] e = refl
  find_in-present w item (x ∷ xs) e =
      elim (Bool-cases (h.same_key (h.get_key item) (h.get_key x))) [
        | inl s ↦ absurd (let q = rw s at e in cc)
        | inr s ↦ elim (Bool-cases (h.items.same item x)) [
          | inr o ↦ rw o (find_in-present w item xs (rw s at e))
          | inl o ↦
              let same = w.items.equal_of_same item x o in
              let q = ap (λ (y : A). h.same_key (h.get_key item) (h.get_key y)) (sym same) in
              let r = w.same_refl (h.get_key item) in absurd cc
        ]
      ]
