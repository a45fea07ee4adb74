-- ===== src/FileTable/Behaviour.antt =====
-- What opening and closing do to the table as its clients see it.
use native.Mathlib.Decide.{ℕ_discrete}
use project.Prelude.{
  ℕ, zero, suc, ◌+◌, ◌≤◌, ◌<◌, ◌≡◌, refl, inl, inr, ◌≢◌, ◌∙◌, sym, ap, false, arith, ℤ, pos,
  minus_one, none, some, List, Exec, ok, undefined, ltb_ℤ, eq_of_==ℤ, set,
}
use project.Host.{Host, open_for_read_write, close}
use project.FileTable.{
  Table, slot, capacity, open_in, open_entry, close_in, close_entry, get_file_descriptor,
  opening_name_from, is_opening_with_name,
}
use project.FileTable.Descriptor.{FileDescriptor, blank, socket_mode, open_file, close_file}
use project.FileTable.Search.{find_free_slot_cases, is_opening_cases}
use project.FileTable.Valid.{IsValid}
use project.FileTable.Slots.{
  ==ℤ-false, opened, Unused, false-true, slot-set_self, is_opening_at, get_file_descriptor_of,
  get_file_descriptor-none, not_found, Unused-set, set-set, set_self, socket_name,
}

module _ (host : Host) where
  open host use {World}

  -- With every slot in use `Open` returns -1 and touches neither the table nor the host.
  pub open_full :
      (table : Table) (name : List ℕ) (type : ℤ) (w : World)
      → ((i : ℕ) → 2 ≤ i → i < capacity → (slot table i).mode ≢ minus_one)
      → open_entry host table name type w ≡ ok (minus_one, table, w)
  unfolding open_entry open_in
  open_full table name type w full = elim (find_free_slot_cases table) [
    | inr n ↦ rw n.is_none
    | inl f ↦ absurd (full f.at f.from f.below (eq_of_==ℤ _ _ f.passes))
  ]

  -- What a successful `Open` gives: the slot, free before, and the table with that slot filled.
  pub record Opens (table : Table) (name : List ℕ) (type fd : ℤ) (r : Exec (ℤ × Table × World))
      : Type 0 where
    pub at : ℕ
    pub after : World
    pub returns : r ≡ ok (fd, set table at (opened name type fd), after)
    pub from : 2 ≤ at
    pub below : at < capacity
    pub was_free : (slot table at).mode ≡ minus_one
    pub found : get_file_descriptor (set table at (opened name type fd)) fd ≡ some at

  opens_at :
      (table : Table) (name : List ℕ) (type : ℤ) (w : World) (i : ℕ)
      → (host.open_file name false w).0 ≢ minus_one
      → let (fd, w') = host.open_file name false w in
        open_in host table name type (pos i) w ≡ ok (fd, set table i (opened name type fd), w')
  unfolding open_in open_file open_for_read_write
  opens_at table name type w i ne = let e = ==ℤ-false _ _ ne in rw e (rw e)

  -- If the host opens the file under an identifier that no slot has, and a slot is free, `Open`
  -- returns that identifier and fills a free slot, where it is found again; the other slots stay.
  pub open_new :
      (table : Table) (name : List ℕ) (type : ℤ) (w : World)
      → IsValid table
      → (host.open_file name false w).0 ≢ minus_one
      → Unused table (host.open_file name false w).0
      → (i : ℕ) → 2 ≤ i
      → i < capacity
      → (slot table i).mode ≡ minus_one
      → Opens table name type (host.open_file name false w).0 (open_entry host table name type w)
  unfolding open_entry
  open_new table name type w v ne unused i lo hi m = elim (find_free_slot_cases table) [
    | inr n ↦ absurd (false-true (sym (n.fails i lo hi) ∙ rw m refl))
    | inl f ↦ record {
      at = f.at;
      after = (host.open_file name false w).1;
      returns = rw f.is_at (opens_at table name type w f.at ne);
      from = f.from;
      below = f.below;
      was_free = eq_of_==ℤ _ _ f.passes;
      found = get_file_descriptor_of _ _ f.at (
          is_opening_at table f.at (opened name type (host.open_file name false w).0) f.from f.below
            v.size unused);
    }
  ]

  -- `Close` of an identifier that stands in slot `i` alone.
  close_at :
      (table : Table) (i : ℕ) (id : ℤ) (w : World)
      → (slot table i).id ≡ id
      → id ≢ minus_one
      → ltb_ℤ (host.close_file id w).0 (pos 0) ≡ false
      → close_in host table (pos i) w ≡ ok (pos 1, set table i blank, (host.close_file id w).1)
  unfolding close_in close_file close
  close_at table i id w e ne h = rw (e, ==ℤ-false id minus_one ne, h)

  -- On a valid table, for an identifier other than -1 that no slot of the table has, where `Open` of a
  -- file has returned it and filled a free slot: `Close` of the identifier returns 1, if the host
  -- closes it, and leaves the table as before `Open` with that slot blank; `GetFileDescriptor` does not
  -- find the identifier any more.
  pub close-open :
      (table : Table) (name : List ℕ) (type fd : ℤ) (w w' : World)
      → IsValid table
      → fd ≢ minus_one
      → Unused table fd
      → (o : Opens table name type fd (open_entry host table name type w))
      → ltb_ℤ (host.close_file fd w').0 (pos 0) ≡ false
      → (close_entry host (set table o.at (opened name type fd)) fd w'
          ≡ ok (pos 1, set table o.at blank, (host.close_file fd w').1))
        × (get_file_descriptor (set table o.at blank) fd ≡ none)
  unfolding close_entry
  close-open table name type fd w w' v ne unused o h = (
    rw
        (
          is_opening_at table o.at (opened name type fd) o.from o.below v.size unused,
          close_at (set table o.at (opened name type fd)) o.at fd w'
              (ap (λ (d : FileDescriptor). d.id)
                (slot-set_self table o.at (opened name type fd) o.below v.size))
              ne h,
          set-set table o.at (opened name type fd) blank,
        )
        refl,
    get_file_descriptor-none _ fd
        (not_found _ fd (Unused-set table o.at fd blank o.below v.size unused (λ e. ne (sym e)))),
  )

  -- `Close` of -1 returns -1 and changes nothing, although `IsOpening` finds a free slot for it.
  pub close_minus_one :
      (table : Table) (w : World)
      → IsValid table
      → close_entry host table minus_one w ≡ ok (minus_one, table, w)
  unfolding close_entry close_in close_file
  close_minus_one table w v = elim (is_opening_cases table minus_one) [
    | inr n ↦ rw n.is_none
    | inl f ↦ rw (f.is_at, f.passes, set_self table f.at)
  ]

-- While a socket is in a slot, and no earlier slot has a file of the name, the search by name
-- follows the socket's NULL name.
opening_name_from_socket :
    (table : Table) (name : List ℕ) (left i k : ℕ)
    → i ≤ k
    → k < i + left
    → (slot table k).mode ≡ socket_mode
    → (slot table k).name ≡ none
    → ((j : ℕ) → i ≤ j → j < k → (slot table j).mode ≡ minus_one)
    → opening_name_from table name left i ≡ undefined
unfolding opening_name_from
opening_name_from_socket table name zero i k lo hi m n before = absurd (omega arith)
opening_name_from_socket table name (suc left) i k lo hi m n before = elim (ℕ_discrete i k) [
  | yes e ↦ rw (e, m, n)
  | no ne ↦ rw (before i (omega arith) (omega arith)) (
      opening_name_from_socket table name left (i + 1) k (omega arith) (omega arith) m n
        (λ j a b. before j (omega arith) b))
]

-- With the lowest used slot a socket's, `IsOpeningWithName` compares a NULL pointer, whatever the
-- name.
pub is_opening_with_name_socket :
    (table : Table) (name : List ℕ) (k : ℕ)
    → IsValid table
    → 2 ≤ k
    → k < capacity
    → (slot table k).mode ≡ socket_mode
    → ((j : ℕ) → 2 ≤ j → j < k → (slot table j).mode ≡ minus_one)
    → is_opening_with_name table name ≡ undefined
unfolding is_opening_with_name
is_opening_with_name_socket table name k v lo hi m before =
    opening_name_from_socket table name 18 2 k lo hi m (socket_name (slot table k) (v.slots k) m)
      before
