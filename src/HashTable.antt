-- ===== src/HashTable.antt =====
-- lib/hash.h and lib/hash.cc: a hash table that grows, over the lists of lib/list.h.
pub mod Search
pub mod Place
pub mod Flat
pub mod Rehash
pub mod Resize
pub mod Insert
pub mod Remove
mod Tests
use project.Prelude.{
  ℕ, zero, suc, ◌+◌, ◌-◌, ◌*◌, ◌/◌, ◌%◌, Bool, true, false, not, List, [], ◌∷◌, Option, none, some,
  Exec, ok, aborted, undefined, ◌>>=◌, ◌>>◌, assert, defined, ltb, leb, ◌==◌, if◌then◌else◌,
  get_elem?, set, replicate, length,
}
use project.LinkedList.{LinkedList, Items, new_list, append, remove_front}
use project.LinkedList

abbrev pub initial_buckets : ℕ
initial_buckets = 4

abbrev pub resize_ratio : ℕ
resize_ratio = 3

abbrev pub increase_size_by : ℕ
increase_size_by = 4

-- What the template takes: `==` on items and on keys, `getKey`, and the hash function.
pub record Hashing {ℓ} (A K : Type ℓ) : Type ℓ where
  pub items : Items A
  pub same_key : K → K → Bool
  pub get_key : A → K
  pub hash : K → ℕ

pub record HashTable {ℓ} (A : Type ℓ) : Type ℓ where
  pub buckets : List (LinkedList A)
  pub num_buckets : ℕ
  pub num_items : ℕ

module _ {ℓ} {A : Type ℓ} where
  abbrev pub init_buckets : ℕ → ℕ → HashTable A
  init_buckets size n = record {
    buckets = replicate size new_list;
    num_buckets = size;
    num_items = n;
  }

  -- The constructor.
  abbrev pub new_hash_table : HashTable A
  new_hash_table = init_buckets initial_buckets 0

  abbrev pub bucket_at : HashTable A → ℕ → Exec (LinkedList A)
  bucket_at t i = defined (get_elem? t.buckets i)

  abbrev pub is_some : Option A → Bool
  is_some none = false
  is_some (some x) = true

  -- `List::SanityCheck`: the walk from `first` finds as many items as are counted.
  abbrev pub list_sanity : LinkedList A → Exec (Unit {0})
  list_sanity l = assert (l.num_in_list == length l.items)

module _ {ℓ} {A K : Type ℓ} (h : Hashing A K) where
  unfoldable pub hash_value : HashTable A → K → Exec ℕ
  hash_value t key =
      if t.num_buckets == 0
      then undefined
      else (let result = h.hash key % t.num_buckets in
          assert (ltb result t.num_buckets) >> ok result)

  -- The loop of `FindInBucket`.
  unfoldable pub find_in : List A → K → Option A
  find_in [] key = none
  find_in (x ∷ xs) key =
      let rest = find_in xs key in if h.same_key key (h.get_key x) then some x else rest

  unfoldable pub find : HashTable A → K → Exec (Option A)
  find t key = hash_value t key >>= λ i. bucket_at t i >>= λ l. ok (find_in l.items key)

  abbrev pub append_at : HashTable A → A → ℕ → Exec (HashTable A)
  append_at t item i = bucket_at t i >>= λ l.
      append h.items l item >>= λ l'. ok (record t { buckets = set t.buckets i l' })

  -- `buckets[HashValue(getKey(item))]->Append(item)`
  unfoldable pub place : HashTable A → A → Exec (HashTable A)
  place t item = hash_value t (h.get_key item) >>= append_at t item

  -- The loop of `ReHash` over one bucket; `IsEmpty` goes by the count.
  unfoldable pub move_items : ℕ → HashTable A → LinkedList A → Exec (HashTable A)
  move_items zero t l = ok t
  move_items (suc left) t l = remove_front l >>= λ r. place t r.0 >>= λ t'. move_items left t' r.1

  unfoldable pub move_buckets : List (LinkedList A) → HashTable A → Exec (HashTable A)
  move_buckets [] t = ok t
  move_buckets (l ∷ ls) t = move_items l.num_in_list t l >>= move_buckets ls

  -- Every item of bucket `i` hashes to `i`.
  unfoldable pub at_home : HashTable A → ℕ → List A → Exec (Unit {0})
  at_home t i [] = ok tt
  at_home t i (x ∷ xs) = hash_value t (h.get_key x) >>= λ j. assert (i == j) >> at_home t i xs

  -- The loop of `SanityCheck` from bucket `i` on: how many items it finds.
  unfoldable pub sanity_from : HashTable A → List (LinkedList A) → ℕ → Exec ℕ
  sanity_from t [] i = ok 0
  sanity_from t (l ∷ ls) i =
      list_sanity l
      >> (at_home t i l.items >> (sanity_from t ls (i + 1) >>= λ n. ok (l.num_in_list + n)))

  abbrev pub sanity_check : HashTable A → Exec (Unit {0})
  sanity_check t = sanity_from t t.buckets 0 >>= λ found. assert (t.num_items == found)

  unfoldable pub rehash : HashTable A → Exec (HashTable A)
  rehash t =
      sanity_check t
      >> (move_buckets t.buckets (init_buckets (t.num_buckets * increase_size_by) t.num_items)
          >>= λ t'. sanity_check t' >> ok t')

  -- The rest of `Insert` after the table was resized.
  abbrev pub inserted : A → HashTable A → Exec (HashTable A)
  inserted item t = place t item >>= λ t'.
      find (record t' { num_items = t'.num_items + 1 }) (h.get_key item) >>= λ o.
      assert (is_some o) >> ok (record t' { num_items = t'.num_items + 1 })

  unfoldable pub insert : HashTable A → A → Exec (HashTable A)
  insert t item = find t (h.get_key item) >>= λ o.
      assert (not (is_some o))
      >> ((if leb resize_ratio (t.num_items / t.num_buckets) then rehash t else ok t)
          >>= inserted item)

  -- `Remove` once the item is found in bucket `i`, the list `l`.
  abbrev pub remove_found : HashTable A → K → ℕ → LinkedList A → Option A → Exec (A × HashTable A)
  remove_found t key i l none = aborted
  remove_found t key i l (some item) = LinkedList.remove h.items l item >>= λ l'.
      let t' = record t { buckets = set t.buckets i l'; num_items = t.num_items - 1 } in
      find t' key >>= λ o. assert (not (is_some o)) >> ok (item, t')

  unfoldable pub remove : HashTable A → K → Exec (A × HashTable A)
  remove t key =
      hash_value t key >>= λ i. bucket_at t i >>= λ l. remove_found t key i l (find_in l.items key)
