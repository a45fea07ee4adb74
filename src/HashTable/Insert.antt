-- ===== src/HashTable/Insert.antt =====
-- `Insert` and `Remove` as updates of the map.
use project.Prelude.{
  ◌+◌, ◌/◌, ◌≡◌, refl, ◌∙◌, Bool, true, false, none, some, arith, if◌then◌else◌, ok, leb, Returns,
  Returns->>=,
}
use project.HashTable.{Hashing, HashTable, rehash, resize_ratio, inserted, insert}
use project.HashTable.Search.{IsLawful, IsPlaced, view, find_lem}
use project.HashTable.Place.{added, place-Grown}
use project.HashTable.Resize.{IsValid, Same, rehash-Same}

module _ {ℓ} {A K : Type ℓ} (h : Hashing A K) where
  -- A valid table that has one item more.
  pub record Added (t : HashTable A) (x : A) (t' : HashTable A) : Type ℓ where
    pub valid : IsValid h t'
    pub viewed : (q : K) → view h t' q ≡ added h (view h t) x q
    pub one_more : t'.num_items ≡ t.num_items + 1

  inserted-Added :
      (w : IsLawful h) (t : HashTable A) (x : A)
      → IsValid h t
      → view h t (h.get_key x) ≡ none
      → Returns (Added t x) (inserted h x t)
  inserted-Added w t x v free =
      let g = place-Grown h w t x v.placed free in
      let t' = record g.out { num_items = g.out.num_items + 1 } in
      let placed : IsPlaced h t' = record {
        some_buckets = g.holds.placed.some_buckets;
        width = g.holds.placed.width;
        bucket = g.holds.placed.bucket;
      } in
      let there : view h t' (h.get_key x) ≡ some x =
        g.holds.viewed (h.get_key x) ∙ rw (w.same_refl (h.get_key x)) refl in
      record {
        out = t';
        is_out = rw (g.is_out, find_lem h t' (h.get_key x) placed, there) refl;
        holds = record {
          valid = record {
            placed = placed;
            count = omega (arith, v.count, g.holds.same_count, g.holds.one_more);
          };
          viewed = g.holds.viewed;
          one_more = omega (arith, g.holds.same_count);
        };
      }

  -- `ReHash` where the table is crowded.
  resized-Same :
      (w : IsLawful h) (t : HashTable A) (b : Bool)
      → IsValid h t
      → Returns (Same h t) (if b then rehash h t else ok t)
  resized-Same w t true v = rehash-Same h w t v
  resized-Same w t false v = record {
    out = t;
    is_out = refl;
    holds = record { valid = v; viewed = λ q. refl; same_count = refl };
  }

  -- Where `==` is an equality, `Insert` of an item whose key is not in a valid table passes all
  -- assertions, those of `ReHash` too: the table is valid, has the item under its key, and under every
  -- other key what it had.
  pub insert-Added :
      (w : IsLawful h) (t : HashTable A) (x : A)
      → IsValid h t
      → view h t (h.get_key x) ≡ none
      → Returns (Added t x) (insert h t x)
  unfolding insert
  insert-Added w t x v free =
      rw (find_lem h t (h.get_key x) v.placed, free)
        (Returns->>= (Same h t) (Added t x)
          (if leb resize_ratio (t.num_items / t.num_buckets) then rehash h t else ok t)
          (inserted h x) (resized-Same w t (leb resize_ratio (t.num_items / t.num_buckets)) v)
          (λ t1 s.
            let i = inserted-Added w t1 x s.valid (s.viewed (h.get_key x) ∙ free) in
            record {
              out = i.out;
              is_out = i.is_out;
              holds = record {
                valid = i.holds.valid;
                viewed = λ q. i.holds.viewed q ∙ rw (s.viewed q) refl;
                one_more = omega (arith, i.holds.one_more, s.same_count);
              };
            }))
