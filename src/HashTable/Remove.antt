-- ===== src/HashTable/Remove.antt =====
-- `Remove` as an update of the map.
use project.Prelude.{
  ℕ, ◌+◌, ◌-◌, ◌<◌, ◌≡◌, refl, sym, subst, ◌∙◌, ap, true, List, [], ◌∷◌, ◌++◌, Option, none, some,
  arith, ◌==◌, if◌then◌else◌, inl, inr, Bool-cases, get_or, length, length-append, Returns, set,
  get_or-set_self, get_or-set_ne, get_elem?-eq-get_or, length-set,
}
use project.LinkedList.{LinkedList, new_list, is_in}
use project.LinkedList.Queue
use project.LinkedList.Remove.{remove_lem, Without}
use project.HashTable.{Hashing, HashTable, find_in, remove}
use project.HashTable.Search.{
  IsLawful, KeysDistinct, Home, Bucket, IsPlaced, home, home-lt, view, find_lem, hash_value_lem,
}
use project.HashTable.Place.{total-set, find_in-append, same_key_sym}
use project.HashTable.Resize.{IsValid}

module _ {ℓ} {A K : Type ℓ} (h : Hashing A K) where
  found :
      (w : IsLawful h) (xs : List A) (key : K) (x : A)
      → find_in h xs key ≡ some x
      → (is_in h.items x xs ≡ true) × (key ≡ h.get_key x)
  unfolding find_in is_in
  found w [] key x e = cc
  found w (y ∷ xs) key x e = elim (Bool-cases (h.same_key key (h.get_key y))) [
    | inl s ↦
        let same : y ≡ x = (let p = rw s at e in cc) in
        let me = ap (h.items.same x) same ∙ w.items.same_refl x in
        (rw me refl, w.equal_of_same key (h.get_key y) s ∙ ap h.get_key same)
    | inr s ↦ let (there, same) = found w xs key x (rw s at e) in (ground (arith, there), same)
  ]

  -- An item in the middle of items with distinct keys.
  middle :
      (w : IsLawful h) (front back : List A) (x : A)
      → KeysDistinct h (front ++ (x ∷ back))
      → (find_in h front (h.get_key x) ≡ none)
        × (find_in h back (h.get_key x) ≡ none)
        × KeysDistinct h (front ++ back)
  unfolding find_in
  middle w [] back x d = (refl, d.0, d.1)
  middle w (y ∷ front) back x d =
      let (before, after, rest) = middle w front back x d.1 in
      let both = sym (find_in-append h front (x ∷ back) (h.get_key y)) ∙ d.0 in
      elim (Bool-cases (h.same_key (h.get_key y) (h.get_key x))) [
        | inl s ↦
            let here = w.equal_of_same (h.get_key y) (h.get_key x) s in
            let free = ap (find_in h front) here ∙ before in
            absurd (let p = rw (free, s) at both in cc)
        | inr s ↦ (
          rw (same_key_sym h w (h.get_key y) (h.get_key x) s) before,
          after,
          (find_in-append h front back (h.get_key y) ∙ rw s at both, rest),
        )
      ]

  Home-without :
      (n i : ℕ) (front back : List A) (x : A)
      → Home h n i (front ++ (x ∷ back))
      → Home h n i (front ++ back)
  Home-without n i [] back x o = o.1
  Home-without n i (y ∷ front) back x o = (o.0, Home-without n i front back x o.1)

  -- The map without a key.
  abbrev pub erased : (K → Option A) → K → K → Option A
  erased f key q = if h.same_key q key then none else f q

  find-without :
      (w : IsLawful h) (front back : List A) (x : A) (q : K)
      → KeysDistinct h (front ++ (x ∷ back))
      → find_in h (front ++ back) q
        ≡ (if h.same_key q (h.get_key x) then none else find_in h (front ++ (x ∷ back)) q)
  unfolding find_in
  find-without w front back x q d = elim (Bool-cases (h.same_key q (h.get_key x))) [
    | inl s ↦
        let (before, after, rest) = middle w front back x d in
        let same = w.equal_of_same q (h.get_key x) s in
        rw (s, find_in-append h front back q, same, before) after
    | inr s ↦ find_in-append h front back q ∙ rw (s, find_in-append h front (x ∷ back) q, s) refl
  ]

  -- A valid table that has one item less.
  pub record Removed (t : HashTable A) (key : K) (t' : HashTable A) : Type ℓ where
    pub valid : IsValid h t'
    pub viewed : (q : K) → view h t' q ≡ erased (view h t) key q
    pub one_less : t'.num_items + 1 ≡ t.num_items

  smaller-Bucket :
      (w : IsLawful h) (n i : ℕ) (x : A) (l l' : LinkedList A)
      → Bucket h n i l
      → Queue.IsValid h.items l'
      → Without h.items x l.items l'.items
      → Bucket h n i l'
  smaller-Bucket w n i x l l' b v o = record {
    list = v;
    home =
        subst (Home h n i) (sym o.rest)
          (Home-without n i o.front o.back x (subst (Home h n i) o.whole b.home));
    keys =
        subst (KeysDistinct h) (sym o.rest)
          (middle w o.front o.back x (subst (KeysDistinct h) o.whole b.keys)).2;
  }

  erased-view :
      (w : IsLawful h) (t : HashTable A) (x : A) (l' : LinkedList A) (n : ℕ)
      → IsPlaced h t
      → Without h.items x (get_or t.buckets (home h t (h.get_key x)) new_list).items l'.items
      → (q : K)
      → view h (record t { buckets = set t.buckets (home h t (h.get_key x)) l'; num_items = n }) q
        ≡ erased (view h t) (h.get_key x) q
  erased-view w t x l' n v o q =
      let i = home h t (h.get_key x) in
      let inside = home-lt h t (h.get_key x) v.some_buckets in
      let here : i < length t.buckets = omega (arith, v.width, inside) in
      elim (Bool-cases (i == home h t q)) [
        | inl e ↦
            let same : home h t q ≡ i = ground arith in
            rw (same, get_or-set_self t.buckets i l' new_list here, o.rest, o.whole)
              (find-without w o.front o.back x q
                (subst (KeysDistinct h) o.whole (v.bucket i inside).keys))
        | inr e ↦
            rw (get_or-set_ne t.buckets i (home h t q) l' new_list (ground arith))
              (elim (Bool-cases (h.same_key q (h.get_key x))) [
                | inl s ↦
                    absurd
                      (let p = ap (home h t) (w.equal_of_same q (h.get_key x) s) in ground arith)
                | inr s ↦ rw s refl
              ])
      ]

  taken-Removed :
      (w : IsLawful h) (t : HashTable A) (x : A) (l' : LinkedList A)
      → IsValid h t
      → Queue.IsValid h.items l'
      → Without h.items x (get_or t.buckets (home h t (h.get_key x)) new_list).items l'.items
      → Removed t (h.get_key x) (record t {
        buckets = set t.buckets (home h t (h.get_key x)) l';
        num_items = t.num_items - 1;
      })
  taken-Removed w t x l' v q o =
      let i = home h t (h.get_key x) in
      let inside = home-lt h t (h.get_key x) v.placed.some_buckets in
      let here : i < length t.buckets = omega (arith, v.placed.width, inside) in
      let l = get_or t.buckets i new_list in
      let b = v.placed.bucket i inside in
      let less : l.num_in_list ≡ l'.num_in_list + 1 = omega (
        arith,
        b.list.count,
        q.count,
        ap length o.whole,
        ap length o.rest,
        length-append o.front (x ∷ o.back),
        length-append o.front o.back,
      ) in
      record {
        valid = record {
          placed = record {
            some_buckets = v.placed.some_buckets;
            width = length-set t.buckets i l' ∙ v.placed.width;
            bucket = λ j g. elim (Bool-cases (i == j)) [
              | inl e ↦
                  let same : j ≡ i = ground arith in
                  rw (same, get_or-set_self t.buckets i l' new_list here)
                    (smaller-Bucket w t.num_buckets i x l l' b q o)
              | inr e ↦
                  rw (get_or-set_ne t.buckets i j l' new_list (ground arith)) (v.placed.bucket j g)
            ];
          };
          count = omega (arith, v.count, total-set t.buckets i l' here, less);
        };
        viewed = erased-view w t x l' (t.num_items - 1) v.placed o;
        one_less = omega (arith, v.count, total-set t.buckets i l' here, less);
      }

  remove_at_key :
      (w : IsLawful h) (t : HashTable A) (x : A)
      → IsValid h t
      → view h t (h.get_key x) ≡ some x
      → Returns
          (λ (r : A × HashTable A). (r.0 ≡ x) × Removed t (h.get_key x) r.1)
          (remove h t (h.get_key x))
  unfolding remove
  remove_at_key w t x v e =
      let key = h.get_key x in
      let i = home h t key in
      let inside = home-lt h t key v.placed.some_buckets in
      let here : i < length t.buckets = omega (arith, v.placed.width, inside) in
      let l = get_or t.buckets i new_list in
      let (there, own) = found w l.items key x e in
      let r = remove_lem h.items w.items l x (v.placed.bucket i inside).list there in
      let t' = record t { buckets = set t.buckets i r.out; num_items = t.num_items - 1 } in
      let d = taken-Removed w t x r.out v r.holds.0 r.holds.1 in
      let gone : view h t' key ≡ none = d.viewed key ∙ rw (w.same_refl key) refl in
      record {
        out = (x, t');
        is_out =
            rw
              (
                hash_value_lem h t key v.placed.some_buckets,
                get_elem?-eq-get_or t.buckets i new_list here,
                e,
                r.is_out,
                find_lem h t' key d.valid.placed,
                gone,
              )
              refl;
        holds = (refl, d);
      }

  -- Where `==` is an equality, `Remove` of a key of a valid table passes all assertions and gives its
  -- item: the table is valid, has nothing under the key, and under every other key what it had.
  pub remove-Removed :
      (w : IsLawful h) (t : HashTable A) (key : K) (x : A)
      → IsValid h t
      → view h t key ≡ some x
      → Returns (λ (r : A × HashTable A). (r.0 ≡ x) × Removed t key r.1) (remove h t key)
  remove-Removed w t key x v e =
      let own = (found w (get_or t.buckets (home h t key) new_list).items key x e).1 in
      rw own (remove_at_key w t x v (rw own at e))
