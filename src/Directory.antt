-- ===== src/Directory.antt =====
-- filesys/directory.h and filesys/directory.cc: the table of file names. `tableSize` is the length of
-- the table: the constructor sets both, and nothing changes them.
pub mod View
pub mod Add
pub mod Remove
mod Tests
use project.Prelude.{
  ℕ, suc, ◌+◌, Bool, true, false, not, ◌&&◌, List, [], ◌∷◌, map, Option, none, some, Exec, ok,
  ◌>>=◌, defined, if◌then◌else◌, ℤ, pos, negsuc, minus_one, get_elem?, set, undefined,
}
use project.CString.{strn_same, strncpy}

abbrev pub file_name_max_len : ℕ
file_name_max_len = 9

-- `name` has `FileNameMaxLen + 1` bytes.
pub record DirectoryEntry : Type 0 where
  pub in_use : Bool
  pub sector : ℤ
  pub name : List ℕ

pub record Directory : Type 0 where
  pub table : List DirectoryEntry

-- `table[i].inUse = FALSE`
abbrev pub unused : DirectoryEntry → DirectoryEntry
unused e = record e { in_use = false }

-- The constructor, over the memory that `new` gives.
abbrev pub new_directory : List DirectoryEntry → Directory
new_directory memory = record { table = map unused memory }

-- `table[i].inUse && !strncmp(table[i].name, name, FileNameMaxLen)`
abbrev pub is_entry : DirectoryEntry → List ℕ → Bool
is_entry e name = e.in_use && strn_same file_name_max_len e.name name

-- The loop of `FindIndex` from entry `i` on.
unfoldable pub find_index_from : List DirectoryEntry → List ℕ → ℕ → ℤ
find_index_from [] name i = minus_one
find_index_from (e ∷ table) name i =
    let rest = find_index_from table name (i + 1) in if is_entry e name then pos i else rest

abbrev pub find_index : Directory → List ℕ → ℤ
find_index d name = find_index_from d.table name 0

-- `table[i]`
abbrev pub entry : Directory → ℕ → Exec DirectoryEntry
entry d i = defined (get_elem? d.table i)

-- What `Find` returns for the index of `FindIndex`.
abbrev pub sector_at : Directory → ℤ → Exec ℤ
sector_at d (negsuc n) = ok minus_one
sector_at d (pos i) = entry d i >>= λ e. ok e.sector

unfoldable pub find : Directory → List ℕ → Exec ℤ
find d name = sector_at d (find_index d name)

-- An entry that is free, filled.
abbrev pub filled : DirectoryEntry → List ℕ → ℤ → DirectoryEntry
filled e name new_sector = record {
  in_use = true;
  sector = new_sector;
  name = strncpy file_name_max_len name e.name;
}

-- The loop of `Add`: `none` where no entry is free.
unfoldable pub fill_free : List DirectoryEntry → List ℕ → ℤ → Option (List DirectoryEntry)
fill_free [] name new_sector = none
fill_free (e ∷ table) name new_sector =
    let rest = fill_free table name new_sector in
    if not e.in_use
    then some (filled e name new_sector ∷ table)
    else elim rest [ none ↦ none | some table' ↦ some (e ∷ table') ]

abbrev pub with_table : Directory → Option (List DirectoryEntry) → Bool × Directory
with_table d none = (false, d)
with_table d (some table) = (true, record { table = table })

abbrev pub add_new : Directory → List ℕ → ℤ → ℤ → Bool × Directory
add_new d name new_sector (pos i) = (false, d)
add_new d name new_sector (negsuc n) = with_table d (fill_free d.table name new_sector)

unfoldable pub add : Directory → List ℕ → ℤ → Bool × Directory
add d name new_sector = add_new d name new_sector (find_index d name)

abbrev pub remove_at : Directory → ℤ → Exec (Bool × Directory)
remove_at d (negsuc n) = ok (false, d)
remove_at d (pos i) = entry d i >>= λ e. ok (true, record { table = set d.table i (unused e) })

unfoldable pub remove : Directory → List ℕ → Exec (Bool × Directory)
remove d name = remove_at d (find_index d name)
