-- ===== src/HashTable/Flat.antt =====
-- The items of all buckets as one list.
use project.Prelude.{
  ℕ, zero, suc, ◌+◌, ◌%◌, ◌<◌, ◌≡◌, ◌≢◌, refl, subst, ◌∙◌, ap, List, [], ◌∷◌, ◌++◌, none, arith,
  inl, inr, Bool-cases, get_or, length, length-append,
}
use project.LinkedList.{LinkedList, new_list}
use project.HashTable.{Hashing, HashTable, find_in}
use project.HashTable.Search.{IsLawful, KeysDistinct, Home, Bucket, IsPlaced, home, view}
use project.HashTable.Place.{or_else-none, total, find_in-append}

abbrev pub flat {ℓ} : {A : Type ℓ} → List (LinkedList A) → List A
flat [] = []
flat (l ∷ ls) = l.items ++ flat ls

module _ {ℓ} {A K : Type ℓ} (h : Hashing A K) where
  -- The buckets from `i` on.
  abbrev pub Row : ℕ → ℕ → List (LinkedList A) → Type ℓ
  Row n i [] = Unit
  Row n i (l ∷ ls) = Bucket h n i l × Row n (i + 1) ls

  from_positions :
      (n i : ℕ) (ls : List (LinkedList A))
      → ((j : ℕ) → j < length ls → Bucket h n (i + j) (get_or ls j new_list))
      → Row n i ls
  from_positions n i [] b = tt
  from_positions n i (l ∷ ls) b = (
    subst (λ (k : ℕ). Bucket h n k l) (omega arith) (b 0 (omega arith)),
    from_positions n (i + 1) ls (λ j p.
        subst (λ (k : ℕ). Bucket h n k (get_or ls j new_list)) (omega arith)
          (b (suc j) (omega arith))),
  )

  pub buckets-Row : (t : HashTable A) → IsPlaced h t → Row t.num_buckets 0 t.buckets
  buckets-Row t v = from_positions t.num_buckets 0 t.buckets (λ j p.
      subst (λ (k : ℕ). Bucket h t.num_buckets k (get_or t.buckets j new_list)) (omega arith)
        (v.bucket j (omega (arith, v.width))))

  pub length-flat : (n i : ℕ) (ls : List (LinkedList A)) → Row n i ls → length (flat ls) ≡ total ls
  length-flat n i [] r = refl
  length-flat n i (l ∷ ls) r =
      omega (arith, length-append l.items (flat ls), r.0.list.count, length-flat n (i + 1) ls r.1)

  -- A key that belongs elsewhere is in no bucket.
  find-away :
      (w : IsLawful h) (n i : ℕ) (xs : List A) (q : K)
      → Home h n i xs
      → h.hash q % n ≢ i
      → find_in h xs q ≡ none
  unfolding find_in
  find-away w n i [] q o e = refl
  find-away w n i (x ∷ xs) q o e = elim (Bool-cases (h.same_key q (h.get_key x))) [
    | inl s ↦ absurd (e (ap (λ (k : K). h.hash k % n) (w.equal_of_same q (h.get_key x) s) ∙ o.0))
    | inr s ↦ rw s (find-away w n i xs q o.1 e)
  ]

  flat-before :
      (w : IsLawful h) (n i : ℕ) (ls : List (LinkedList A)) (q : K)
      → Row n i ls
      → h.hash q % n < i
      → find_in h (flat ls) q ≡ none
  unfolding find_in
  flat-before w n i [] q r e = refl
  flat-before w n i (l ∷ ls) q r e =
      find_in-append h l.items (flat ls) q
      ∙ rw
          (
            find-away w n i l.items q r.0.home (omega arith),
            flat-before w n (i + 1) ls q r.1 (omega arith),
          )
          refl

  flat-at :
      (w : IsLawful h) (n i k : ℕ) (ls : List (LinkedList A)) (q : K)
      → Row n i ls
      → h.hash q % n ≡ i + k
      → find_in h (flat ls) q ≡ find_in h (get_or ls k new_list).items q
  unfolding find_in
  flat-at w n i k [] q r e = refl
  flat-at w n i zero (l ∷ ls) q r e =
      find_in-append h l.items (flat ls) q
      ∙ rw (flat-before w n (i + 1) ls q r.1 (omega arith)) (or_else-none (find_in h l.items q))
  flat-at w n i (suc k) (l ∷ ls) q r e =
      find_in-append h l.items (flat ls) q
      ∙ rw (find-away w n i l.items q r.0.home (omega arith))
          (flat-at w n (i + 1) k ls q r.1 (omega arith))

  -- A search through all buckets finds what the table has.
  pub find_in-flat :
      (w : IsLawful h) (t : HashTable A) (q : K)
      → IsPlaced h t
      → find_in h (flat t.buckets) q ≡ view h t q
  find_in-flat w t q v =
      flat-at w t.num_buckets 0 (home h t q) t.buckets q (buckets-Row t v) (omega arith)

  keys_join :
      (n i : ℕ) (xs ys : List A)
      → Home h n i xs
      → KeysDistinct h xs
      → KeysDistinct h ys
      → ((q : K) → h.hash q % n ≡ i → find_in h ys q ≡ none)
      → KeysDistinct h (xs ++ ys)
  keys_join n i [] ys o d e f = e
  keys_join n i (x ∷ xs) ys o d e f = (
    find_in-append h xs ys (h.get_key x) ∙ rw (d.0, f (h.get_key x) o.0) refl,
    keys_join n i xs ys o.1 d.1 e f,
  )

  pub KeysDistinct-flat :
      (w : IsLawful h) (n i : ℕ) (ls : List (LinkedList A)) → Row n i ls → KeysDistinct h (flat ls)
  KeysDistinct-flat w n i [] r = tt
  KeysDistinct-flat w n i (l ∷ ls) r =
      keys_join n i l.items (flat ls) r.0.home r.0.keys (KeysDistinct-flat w n (i + 1) ls r.1)
        (λ q e. flat-before w n (i + 1) ls q r.1 (omega arith))
