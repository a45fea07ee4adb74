-- ===== src/FileHeader.antt =====
-- filesys/filehdr.h and filesys/filehdr.cc: `class FileHeader`, the i-node of a file. Sizes are
-- non-negative. `FetchFrom`, `WriteBack` and `Print` copy the record from and to the disk.
pub mod Sectors
pub mod Allocate
pub mod Deallocate
mod Tests
use project.Prelude.{
  ℕ, zero, suc, ◌+◌, ◌*◌, ◌/◌, Bool, true, false, List, ℤ, pos, negsuc, Exec, ok, undefined, ◌>>=◌,
  ◌>>◌, assert, defined, Option, none, some, ltb, if◌then◌else◌, length, get_elem?, set,
}
use project.Bitmap.{Bitmap, div_round_up, test, clear, find_and_set, num_clear}

abbrev pub sector_size : ℕ
sector_size = 128

-- `NumDirect`: (SectorSize - 2 * sizeof(int)) / sizeof(int)
abbrev pub num_direct : ℕ
num_direct = 30

-- `MaxFileSize`
abbrev pub max_file_size : ℕ
max_file_size = num_direct * sector_size

pub record FileHeader : Type 0 where
  pub num_bytes : ℕ
  pub num_sectors : ℕ
  pub data_sectors : List ℤ

-- `dataSectors[i] = sector`. C does not define a write outside the array.
abbrev pub store : FileHeader → ℕ → ℤ → Exec FileHeader
store h i sector =
    if ltb i (length h.data_sectors)
    then ok (record h { data_sectors = set h.data_sectors i sector })
    else undefined

-- `ASSERT(dataSectors[i] >= 0)`
abbrev pub non_negative : ℤ → Bool
non_negative (pos n) = true
non_negative (negsuc n) = false

-- The loop of `Allocate`, with `left` sectors to go.
pub allocate_from : FileHeader → Bitmap → ℕ → ℕ → Exec (Bool × FileHeader × Bitmap)
allocate_from h free zero i = ok (true, h, free)
allocate_from h free (suc left) i = do
  (sector, free') ← find_and_set free
  h' ← store h i sector
  assert (non_negative sector)
  allocate_from h' free' left (i + 1)

pub allocate : FileHeader → Bitmap → ℕ → Exec (Bool × FileHeader × Bitmap)
allocate h free file_size = do
  let n = div_round_up file_size sector_size
  let h' = record h { num_bytes = file_size; num_sectors = n }
  room ← num_clear free
  if ltb room n then ok (false, h', free) else allocate_from h' free n 0

-- The loop of `Deallocate`.
pub deallocate_from : FileHeader → Bitmap → ℕ → ℕ → Exec Bitmap
deallocate_from h free zero i = ok free
deallocate_from h free (suc left) i = do
  sector ← defined (get_elem? h.data_sectors i)
  marked ← test free sector
  assert marked
  free' ← clear free sector
  deallocate_from h free' left (i + 1)

pub deallocate : FileHeader → Bitmap → Exec Bitmap
deallocate h free = deallocate_from h free h.num_sectors 0

-- `ByteToSector`, at a non-negative offset.
pub byte_to_sector : FileHeader → ℕ → Exec ℤ
byte_to_sector h offset = defined (get_elem? h.data_sectors (offset / sector_size))

pub file_length : FileHeader → ℕ
file_length h = h.num_bytes
