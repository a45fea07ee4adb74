-- ===== src/FileTable/Valid.antt =====
-- When a table of descriptors is well formed.
use project.Prelude.{
  ℕ, ◌<◌, ◌≡◌, refl, ◌⊎◌, ◌≢◌, ◌∙◌, subst, sym, arith, minus_one, none, some, List, length,
  length-set, length-replicate, set, get_or-set_self, get_or-set_ne, get_or-replicate,
}
use native.Mathlib.Decide.{ℕ_discrete}
use project.FileTable.{Table, slot, capacity, new_table}
use project.FileTable.Descriptor.{
  FileDescriptor, OpenFile, blank, read_write_file, read_file_mode, socket_mode,
}

pub record IsFileSlot (fd : FileDescriptor) : Type 0 where
  pub mode : (fd.mode ≡ read_write_file) ⊎ (fd.mode ≡ read_file_mode)
  pub open_id : fd.id ≢ minus_one
  pub object : OpenFile
  pub file : fd.file ≡ some object
  pub same_id : object.file ≡ fd.id
  pub text : List ℕ
  pub name : fd.name ≡ some text

pub record IsSocketSlot (fd : FileDescriptor) : Type 0 where
  pub mode : fd.mode ≡ socket_mode
  pub open_id : fd.id ≢ minus_one
  pub file : fd.file ≡ none
  pub name : fd.name ≡ none

-- A descriptor is free, or a file's, or a socket's.
pub data IsSlot (fd : FileDescriptor) : Type 0 where
  free : fd.mode ≡ minus_one → fd.id ≡ minus_one → IsSlot fd
  a_file : IsFileSlot fd → IsSlot fd
  a_socket : IsSocketSlot fd → IsSlot fd

pub record IsValid (table : Table) : Type 0 where
  pub size : length table ≡ capacity
  pub slots : (i : ℕ) → IsSlot (slot table i)

pub blank-IsSlot : IsSlot blank
blank-IsSlot = free refl refl

pub new_table-IsValid : IsValid new_table
new_table-IsValid = record {
  size = length-replicate capacity blank;
  slots = λ i. subst IsSlot (sym (get_or-replicate capacity i blank)) blank-IsSlot;
}

slot-set :
    (table : Table) (i j : ℕ) (fd : FileDescriptor)
    → IsSlot fd
    → IsSlot (slot table j)
    → i < length table
    → IsSlot (slot (set table i fd) j)
slot-set table i j fd s old h = elim (ℕ_discrete i j) [
  | yes e ↦
      subst (λ k. IsSlot (slot (set table i fd) k)) e (rw (get_or-set_self table i fd blank h) s)
  | no e ↦ rw (get_or-set_ne table i j fd blank e) old
]

-- A slot may be replaced by any well-formed descriptor.
pub set-IsValid :
    {table : Table} (i : ℕ) (fd : FileDescriptor)
    → IsValid table
    → IsSlot fd
    → i < capacity
    → IsValid (set table i fd)
set-IsValid {table} i fd v s h = record {
  size = length-set table i fd ∙ v.size;
  slots = λ j. slot-set table i j fd s (v.slots j) (omega (arith, v.size));
}
