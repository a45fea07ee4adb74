-- ===== src/FileTable/Slots.antt =====
-- Slots of the table, read and written, and the identifiers that they hold.
use native.Mathlib.Decide.{ℕ_discrete}
use project.Prelude.{
  ℕ, zero, suc, ◌≤◌, ◌<◌, ◌≡◌, refl, inl, inr, ◌≢◌, ◌∙◌, sym, ap, true, false, arith, ℤ, pos,
  minus_one, none, some, List, [], ◌∷◌, length, ◌==ℤ◌, eq_of_==ℤ, ==ℤ-refl, Bool-cases, set,
  if◌then◌else◌, get_or-set_self, get_or-set_ne,
}
use project.FileTable.{Table, slot, capacity, is_opening, get_file_descriptor}
use project.FileTable.Descriptor.{
  FileDescriptor, blank, read_write_file, read_file_mode, socket_mode,
}
use project.FileTable.Search.{is_opening_cases}
use project.FileTable.Valid.{IsSlot, free, a_file, a_socket}

pub ==ℤ-false : (a b : ℤ) → a ≢ b → (a ==ℤ b) ≡ false
==ℤ-false a b h = elim (Bool-cases (a ==ℤ b)) [ inl e ↦ absurd (h (eq_of_==ℤ a b e)) | inr e ↦ e ]

-- The descriptor that `Open_File` makes.
abbrev pub opened : List ℕ → ℤ → ℤ → FileDescriptor
opened name type fd = record {
  mode = if type ==ℤ pos 0 then read_write_file else read_file_mode;
  id = fd;
  file = some (record { file = fd; current_offset = pos 0; type = type });
  name = some name;
}

-- The identifier is in no slot that can be in use.
abbrev pub Unused : Table → ℤ → Type 0
Unused table id = (i : ℕ) → (slot table i).id ≢ id

pub false-true : false ≡ true → ⊥
false-true h = cc

-- The slot of an identifier that is in one slot only.
pub is_opening_unique :
    (table : Table) (id : ℤ) (i : ℕ)
    → 2 ≤ i
    → i < capacity
    → (slot table i).id ≡ id
    → ((j : ℕ) → j ≢ i → (slot table j).id ≢ id)
    → is_opening table id ≡ pos i
is_opening_unique table id i lo hi here others = elim (is_opening_cases table id) [
  | inr n ↦ absurd (false-true (sym (n.fails i lo hi) ∙ (rw here (==ℤ-refl id))))
  | inl f ↦ elim (ℕ_discrete f.at i) [
    | yes e ↦ f.is_at ∙ ap pos e
    | no e ↦ absurd (others f.at e (eq_of_==ℤ _ _ f.passes))
  ]
]

-- An identifier that was unused is found in the slot that has been given to it.
pub slot-set_self :
    (table : Table) (i : ℕ) (fd : FileDescriptor)
    → i < capacity
    → length table ≡ capacity
    → slot (set table i fd) i ≡ fd
slot-set_self table i fd hi size = get_or-set_self table i fd blank (omega (arith, size))

pub slot-set_ne :
    (table : Table) (i j : ℕ) (fd : FileDescriptor) → j ≢ i → slot (set table i fd) j ≡ slot table j
slot-set_ne table i j fd ne = get_or-set_ne table i j fd blank (λ e. ne (sym e))

pub is_opening_at :
    (table : Table) (i : ℕ) (fd : FileDescriptor)
    → 2 ≤ i
    → i < capacity
    → length table ≡ capacity
    → Unused table fd.id
    → is_opening (set table i fd) fd.id ≡ pos i
is_opening_at table i fd lo hi size unused =
    is_opening_unique (set table i fd) fd.id i lo hi
      (ap (λ (d : FileDescriptor). d.id) (slot-set_self table i fd hi size))
      (λ j ne h.
        unused j (ap (λ (d : FileDescriptor). d.id) (sym (slot-set_ne table i j fd ne)) ∙ h))

pub get_file_descriptor_of :
    (table : Table) (id : ℤ) (i : ℕ)
    → is_opening table id ≡ pos i
    → get_file_descriptor table id ≡ some i
unfolding get_file_descriptor
get_file_descriptor_of table id i h = ground arith

pub get_file_descriptor-none :
    (table : Table) (id : ℤ) → is_opening table id ≡ minus_one → get_file_descriptor table id ≡ none
unfolding get_file_descriptor
get_file_descriptor-none table id h = ground arith

-- An identifier that no slot has is not found.
pub not_found : (table : Table) (id : ℤ) → Unused table id → is_opening table id ≡ minus_one
not_found table id unused = elim (is_opening_cases table id) [
  | inr n ↦ n.is_none
  | inl f ↦ absurd (unused f.at (eq_of_==ℤ _ _ f.passes))
]

-- Blanking the one slot that has an identifier leaves the identifier unused.
pub Unused-set :
    (table : Table) (i : ℕ) (id : ℤ) (fd : FileDescriptor)
    → i < capacity
    → length table ≡ capacity
    → Unused table id
    → fd.id ≢ id
    → Unused (set table i fd) id
Unused-set table i id fd hi size unused ne j h = elim (ℕ_discrete j i) [
  | yes e ↦ ne (
      ap (λ (d : FileDescriptor). d.id) (sym (slot-set_self table i fd hi size))
      ∙ ap (λ (k : ℕ). (slot (set table i fd) k).id) (sym e)
      ∙ h)
  | no e ↦ unused j (ap (λ (d : FileDescriptor). d.id) (sym (slot-set_ne table i j fd e)) ∙ h)
]

pub set-set :
    (table : Table) (i : ℕ) (fd fd' : FileDescriptor) → set (set table i fd) i fd' ≡ set table i fd'
set-set [] i fd fd' = refl
set-set (x ∷ xs) zero fd fd' = refl
set-set (x ∷ xs) (suc i) fd fd' = ap (◌∷◌ x) (set-set xs i fd fd')

pub set_self : (table : Table) (i : ℕ) → set table i (slot table i) ≡ table
set_self [] i = refl
set_self (x ∷ xs) zero = refl
set_self (x ∷ xs) (suc i) = ap (◌∷◌ x) (set_self xs i)

pub socket_name : (fd : FileDescriptor) → IsSlot fd → fd.mode ≡ socket_mode → fd.name ≡ none
socket_name fd (free m i) h = absurd (cc (sym m ∙ h))
socket_name fd (a_file f) h = ground (arith, f.mode)
socket_name fd (a_socket s) h = s.name
