-- ===== src/HashTable/Resize.antt =====
-- `ReHash` as a whole, with its checks.
use project.Prelude.{
  ℕ, zero, suc, ◌+◌, ◌*◌, ◌%◌, ◌<◌, ◌≡◌, refl, sym, fun_ext, ◌∙◌, ap, true, List, [], ◌∷◌, ◌++◌,
  none, arith, ◌==◌, Exec, ok, ◌>>=◌, >>=_assoc, length, length-replicate, get_or-replicate,
  Returns, replicate,
}
use project.LinkedList.{LinkedList, new_list}
use project.HashTable.{
  Hashing, HashTable, init_buckets, find_in, place, move_buckets, at_home, sanity_from,
  sanity_check, rehash, increase_size_by, new_hash_table,
}
use project.HashTable.Search.{IsLawful, Home, IsPlaced, home, view, hash_value_lem}
use project.HashTable.Place.{total}
use project.HashTable.Rehash.{place_all, move_items-place_all, Moved, place_all-Moved}
use project.HashTable.Flat.{flat, Row, buckets-Row, length-flat, find_in-flat, KeysDistinct-flat}

module _ {ℓ} {A K : Type ℓ} (h : Hashing A K) where
  -- The items are in their places, and their count is right.
  pub record IsValid (t : HashTable A) : Type ℓ where
    pub placed : IsPlaced h t
    pub count : t.num_items ≡ total t.buckets

  place_all-append :
      (xs ys : List A) (t : HashTable A)
      → place_all h (xs ++ ys) t ≡ place_all h xs t >>= place_all h ys
  unfolding place_all
  place_all-append [] ys t = refl
  place_all-append (x ∷ xs) ys t =
      ap (λ (k : HashTable A → Exec (HashTable A)). place h t x >>= k)
        (fun_ext (λ t'. place_all-append xs ys t'))
      ∙ sym (>>=_assoc (place h t x) (place_all h xs) (place_all h ys))

  move_buckets-place_all :
      (n i : ℕ) (ls : List (LinkedList A)) (t : HashTable A)
      → Row h n i ls
      → move_buckets h ls t ≡ place_all h (flat ls) t
  unfolding move_buckets place_all
  move_buckets-place_all n i [] t r = refl
  move_buckets-place_all n i (l ∷ ls) t r =
      ap (λ (m : Exec (HashTable A)). m >>= move_buckets h ls)
        (move_items-place_all h l.items l.num_in_list t r.0.list.count)
      ∙ ap (λ (k : HashTable A → Exec (HashTable A)). place_all h l.items t >>= k)
          (fun_ext (λ t'. move_buckets-place_all n (i + 1) ls t' r.1))
      ∙ sym (place_all-append l.items (flat ls) t)

  at_home_lem :
      (t : HashTable A) (i : ℕ) (xs : List A)
      → 0 < t.num_buckets
      → Home h t.num_buckets i xs
      → at_home h t i xs ≡ ok tt
  unfolding at_home
  at_home_lem t i [] p o = refl
  at_home_lem t i (x ∷ xs) p o =
      let here = o.0 in
      let same : (i == home h t (h.get_key x)) ≡ true = ground (arith, here) in
      rw (hash_value_lem h t (h.get_key x) p, same) (at_home_lem t i xs p o.1)

  sanity_from_lem :
      (t : HashTable A) (i : ℕ) (ls : List (LinkedList A))
      → 0 < t.num_buckets
      → Row h t.num_buckets i ls
      → sanity_from h t ls i ≡ ok (total ls)
  unfolding sanity_from
  sanity_from_lem t i [] p r = refl
  sanity_from_lem t i (l ∷ ls) p r =
      let count = r.0.list.count in
      let right : (l.num_in_list == length l.items) ≡ true = ground arith in
      rw (right, at_home_lem t i l.items p r.0.home, sanity_from_lem t (i + 1) ls p r.1) refl

  sanity_check_lem : (t : HashTable A) → IsValid t → sanity_check h t ≡ ok tt
  sanity_check_lem t v =
      let count = v.count in
      let right : (t.num_items == total t.buckets) ≡ true = ground arith in
      rw (sanity_from_lem t 0 t.buckets v.placed.some_buckets (buckets-Row h t v.placed), right)
        refl

  empty-IsPlaced : (size n : ℕ) → 0 < size → IsPlaced h (init_buckets size n)
  empty-IsPlaced size n p = record {
    some_buckets = p;
    width = length-replicate size new_list;
    bucket = λ i e.
        rw (get_or-replicate size i (new_list {A = A}))
          (record { list = record { count = refl; distinct = tt }; home = tt; keys = tt });
  }

  empty-total : (size : ℕ) → total (replicate size (new_list {A = A})) ≡ 0
  empty-total zero = refl
  empty-total (suc size) = omega (arith, empty-total size)

  empty-view : (size n : ℕ) (q : K) → view h (init_buckets size n) q ≡ none
  unfolding find_in
  empty-view size n q = rw (get_or-replicate size (h.hash q % size) (new_list {A = A})) refl

  pub new-IsValid : IsValid new_hash_table
  new-IsValid = record { placed = empty-IsPlaced 4 0 (omega arith); count = refl }

  -- The same map in other buckets.
  pub record Same (t t' : HashTable A) : Type ℓ where
    pub valid : IsValid t'
    pub viewed : (q : K) → view h t' q ≡ view h t q
    pub same_count : t'.num_items ≡ t.num_items

  Moved-Same :
      (w : IsLawful h) (t t' : HashTable A)
      → IsValid t
      → Moved h (init_buckets (t.num_buckets * increase_size_by) t.num_items) (flat t.buckets) t'
      → Same t t'
  Moved-Same w t t' v m =
      let size = t.num_buckets * increase_size_by in
      let full = length-flat h t.num_buckets 0 t.buckets (buckets-Row h t v.placed) in
      record {
        valid = record {
          placed = m.placed;
          count = omega (arith, m.same_count, m.counted, empty-total size, full, v.count);
        };
        viewed =
            λ q. m.viewed q ∙ rw (empty-view size t.num_items q) (find_in-flat h w t q v.placed);
        same_count = m.same_count;
      }

  pub rehash-Same : (w : IsLawful h) (t : HashTable A) → IsValid t → Returns (Same t) (rehash h t)
  unfolding rehash
  rehash-Same w t v =
      let size = t.num_buckets * increase_size_by in
      let row = buckets-Row h t v.placed in
      let m =
        place_all-Moved h w (flat t.buckets) (init_buckets size t.num_items)
          (empty-IsPlaced size t.num_items (omega (arith, v.placed.some_buckets)))
          (KeysDistinct-flat h w t.num_buckets 0 t.buckets row)
          (λ q e. empty-view size t.num_items q) in
      let s = Moved-Same w t m.out v m.holds in
      record {
        out = m.out;
        is_out =
            rw
              (
                sanity_check_lem t v,
                move_buckets-place_all t.num_buckets 0 t.buckets (init_buckets size t.num_items)
                    row,
                m.is_out,
                sanity_check_lem m.out s.valid,
              )
              refl;
        holds = s;
      }
