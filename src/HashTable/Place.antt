-- ===== src/HashTable/Place.antt =====
-- An item goes to its bucket.
use project.Prelude.{
  ℕ, zero, suc, ◌+◌, ◌%◌, ◌<◌, ◌≡◌, refl, sym, subst, ◌∙◌, ap, false, List, [], ◌∷◌, ◌++◌, Option,
  none, some, arith, ◌==◌, if◌then◌else◌, inl, inr, Bool-cases, get_elem?-eq-get_or, get_or, length,
  set, length-set, get_or-set_self, get_or-set_ne, length-append, Returns,
}
use project.LinkedList.{LinkedList, new_list}
use project.LinkedList.Queue
use project.LinkedList.Queue.{IsEquality, append_lem}
use project.HashTable.{Hashing, HashTable, find_in, place}
use project.HashTable.Search.{
  IsLawful, KeysDistinct, Home, Bucket, IsPlaced, home, home-lt, view, hash_value_lem,
  find_in-present,
}

abbrev pub or_else {ℓ} : {A : Type ℓ} → Option A → Option A → Option A
or_else none o = o
or_else (some x) o = some x

pub or_else-none {ℓ} : {A : Type ℓ} (o : Option A) → or_else o none ≡ o
or_else-none none = refl
or_else-none (some x) = refl

-- How many items the buckets count.
abbrev pub total {ℓ} : {A : Type ℓ} → List (LinkedList A) → ℕ
total [] = 0
total (l ∷ ls) = l.num_in_list + total ls

pub total-set {ℓ} :
    {A : Type ℓ} (ls : List (LinkedList A)) (i : ℕ) (l : LinkedList A)
    → i < length ls
    → total (set ls i l) + (get_or ls i new_list).num_in_list ≡ total ls + l.num_in_list
total-set [] i l p = absurd (omega arith)
total-set (x ∷ ls) zero l p = omega arith
total-set (x ∷ ls) (suc i) l p = omega (arith, total-set ls i l (omega arith))

module _ {ℓ} {A K : Type ℓ} (h : Hashing A K) where
  pub find_in-append :
      (xs ys : List A) (q : K) → find_in h (xs ++ ys) q ≡ or_else (find_in h xs q) (find_in h ys q)
  unfolding find_in
  find_in-append [] ys q = refl
  find_in-append (x ∷ xs) ys q = elim (Bool-cases (h.same_key q (h.get_key x))) [
    | inl e ↦ rw e refl
    | inr e ↦ rw e (find_in-append xs ys q)
  ]

  pub same_key_sym : (w : IsLawful h) (j k : K) → h.same_key j k ≡ false → h.same_key k j ≡ false
  same_key_sym w j k e = elim (Bool-cases (h.same_key k j)) [
    | inr o ↦ o
    | inl o ↦
        let q = ap (λ (x : K). h.same_key j x) (w.equal_of_same k j o) in
        let r = w.same_refl j in absurd cc
  ]

  Home-append :
      (n i : ℕ) (xs : List A) (x : A)
      → Home h n i xs
      → h.hash (h.get_key x) % n ≡ i
      → Home h n i (xs ++ (x ∷ []))
  Home-append n i [] x o e = (e, tt)
  Home-append n i (y ∷ xs) x o e = (o.0, Home-append n i xs x o.1 e)

  KeysDistinct-append :
      (w : IsLawful h) (xs : List A) (x : A)
      → KeysDistinct h xs
      → find_in h xs (h.get_key x) ≡ none
      → KeysDistinct h (xs ++ (x ∷ []))
  unfolding find_in
  KeysDistinct-append w [] x d e = (refl, tt)
  KeysDistinct-append w (y ∷ xs) x d e =
      elim (Bool-cases (h.same_key (h.get_key x) (h.get_key y))) [
        | inl s ↦ absurd (let q = rw s at e in cc)
        | inr s ↦ (
          find_in-append xs (x ∷ []) (h.get_key y)
              ∙ rw (d.0, same_key_sym w (h.get_key x) (h.get_key y) s) refl,
          KeysDistinct-append w xs x d.1 (rw s at e),
        )
      ]

  -- The map with one more item.
  abbrev pub added : (K → Option A) → A → K → Option A
  added f x q = if h.same_key q (h.get_key x) then some x else f q

  -- What `place` of an item under a new key comes to.
  pub record Grown (t : HashTable A) (x : A) (t' : HashTable A) : Type ℓ where
    pub placed : IsPlaced h t'
    pub same_width : t'.num_buckets ≡ t.num_buckets
    pub same_count : t'.num_items ≡ t.num_items
    pub viewed : (q : K) → view h t' q ≡ added (view h t) x q
    pub one_more : total t'.buckets ≡ total t.buckets + 1

  grown-view :
      (w : IsLawful h) (t : HashTable A) (x : A) (l : LinkedList A)
      → IsPlaced h t
      → view h t (h.get_key x) ≡ none
      → l.items ≡ (get_or t.buckets (home h t (h.get_key x)) new_list).items ++ (x ∷ [])
      → (q : K)
      → view h (record t { buckets = set t.buckets (home h t (h.get_key x)) l }) q
        ≡ added (view h t) x q
  unfolding find_in
  grown-view w t x l v free e q = elim (Bool-cases (h.same_key q (h.get_key x))) [
    | inl s ↦
        let same = w.equal_of_same q (h.get_key x) s in
        rw
          (
            s,
            same,
            get_or-set_self t.buckets (home h t (h.get_key x)) l new_list
                (omega (arith, v.width, home-lt h t (h.get_key x) v.some_buckets)),
            e,
            find_in-append (get_or t.buckets (home h t (h.get_key x)) new_list).items (x ∷ [])
                (h.get_key x),
            free,
            w.same_refl (h.get_key x),
          )
          refl
    | inr s ↦ elim (Bool-cases (home h t (h.get_key x) == home h t q)) [
      | inl o ↦
          let same : home h t q ≡ home h t (h.get_key x) = ground arith in
          rw
            (
              s,
              same,
              get_or-set_self t.buckets (home h t (h.get_key x)) l new_list
                  (omega (arith, v.width, home-lt h t (h.get_key x) v.some_buckets)),
              e,
              find_in-append (get_or t.buckets (home h t (h.get_key x)) new_list).items (x ∷ []) q,
              s,
            )
            (or_else-none _)
      | inr o ↦
          rw
            (
              s,
              get_or-set_ne t.buckets (home h t (h.get_key x)) (home h t q) l new_list
                  (ground arith),
            )
            refl
    ]
  ]

  grown-Bucket :
      (w : IsLawful h) (n i : ℕ) (x : A) (l l' : LinkedList A)
      → Bucket h n i l
      → h.hash (h.get_key x) % n ≡ i
      → find_in h l.items (h.get_key x) ≡ none
      → Queue.IsValid h.items l'
      → l'.items ≡ l.items ++ (x ∷ [])
      → Bucket h n i l'
  grown-Bucket w n i x l l' b here free v e = record {
    list = v;
    home = subst (Home h n i) (sym e) (Home-append n i l.items x b.home here);
    keys = subst (KeysDistinct h) (sym e) (KeysDistinct-append w l.items x b.keys free);
  }

  -- An item under a key that is not in the table goes to the end of its bucket.
  pub place-Grown :
      (w : IsLawful h) (t : HashTable A) (x : A)
      → IsPlaced h t
      → view h t (h.get_key x) ≡ none
      → Returns (Grown t x) (place h t x)
  unfolding place
  place-Grown w t x v free =
      let i = home h t (h.get_key x) in
      let inside = home-lt h t (h.get_key x) v.some_buckets in
      let here : i < length t.buckets = omega (arith, v.width, inside) in
      let l = get_or t.buckets i new_list in
      let b = v.bucket i inside in
      let a = append_lem h.items w.items l x b.list (find_in-present h w x l.items free) in
      record {
        out = record t { buckets = set t.buckets i a.out };
        is_out =
            rw
              (
                hash_value_lem h t (h.get_key x) v.some_buckets,
                get_elem?-eq-get_or t.buckets i new_list here,
                a.is_out,
              )
              refl;
        holds = record {
          placed = record {
            some_buckets = v.some_buckets;
            width = length-set t.buckets i a.out ∙ v.width;
            bucket = λ j g. elim (Bool-cases (i == j)) [
              | inl e ↦
                  let same : j ≡ i = ground arith in
                  rw (same, get_or-set_self t.buckets i a.out new_list here)
                    (grown-Bucket w t.num_buckets i x l a.out b refl free a.holds.0 a.holds.1)
              | inr e ↦
                  rw (get_or-set_ne t.buckets i j a.out new_list (ground arith)) (v.bucket j g)
            ];
          };
          same_width = refl;
          same_count = refl;
          viewed = grown-view w t x a.out v free a.holds.1;
          one_more = omega (
            arith,
            total-set t.buckets i a.out here,
            a.holds.0.count,
            b.list.count,
            ap length a.holds.1,
            length-append l.items (x ∷ []),
          );
        };
      }
