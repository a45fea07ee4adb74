-- ===== src/FileTable.antt =====
-- userprog/FileDescriptors.h: `class FileDescriptor` and `class Table`, the table of the files and
-- sockets that user programs have open, over the file objects of filesys/openfile.h as the build
-- configures them (FILESYS_STUB). Sizes and counts of bytes are non-negative.
pub mod Descriptor
pub mod Search
pub mod Valid
pub mod Preserve
pub mod Slots
pub mod Behaviour
pub mod Sample
mod Tests
use project.Prelude.{
  ℕ, zero, suc, ◌+◌, Bool, true, false, not, ◌||◌, List, [], ◌∷◌, ◌++◌, Option, none, some, ℤ, pos,
  negsuc, minus_one, Exec, ok, undefined, ◌>>=◌, ◌>>◌, defined, ltb_ℤ, ◌==ℤ◌, ◌+ℤ◌, if◌then◌else◌,
  length, get_or, set, take, drop, replicate,
}
use project.CString.{str_case_same}
use project.Host.{Host}
use Descriptor.{
  FileDescriptor, blank, open_file, close_file, socket_tcp, connect_to, send_on, receive_on,
  close_socket,
}

abbrev pub capacity : ℕ
capacity = 20

abbrev pub Table : Type 0
Table = List FileDescriptor

-- The constructor: twenty blank descriptors.
abbrev pub new_table : Table
new_table = replicate capacity blank

abbrev pub slot : Table → ℕ → FileDescriptor
slot table i = get_or table i blank

-- The loops run over the slots from 2 on, with `left` slots to go.
pub find_free_from : Table → ℕ → ℕ → ℤ
find_free_from table zero i = minus_one
find_free_from table (suc left) i =
    if (slot table i).mode ==ℤ minus_one then pos i else find_free_from table left (i + 1)

pub find_free_slot : Table → ℤ
find_free_slot table = find_free_from table 18 2

pub is_opening_from : Table → ℤ → ℕ → ℕ → ℤ
is_opening_from table id zero i = minus_one
is_opening_from table id (suc left) i =
    if (slot table i).id ==ℤ id then pos i else is_opening_from table id left (i + 1)

unfoldable pub is_opening : Table → ℤ → ℤ
unfolding is_opening_from
is_opening table id = is_opening_from table id 18 2

-- `strcasecmp` of a slot's name; its name may be NULL.
unfoldable pub opening_name_from : Table → List ℕ → ℕ → ℕ → Exec ℤ
opening_name_from table name zero i = ok minus_one
opening_name_from table name (suc left) i =
    let rest = opening_name_from table name left (i + 1) in
    if (slot table i).mode ==ℤ minus_one
    then rest
    else (defined (slot table i).name >>= λ n. if str_case_same n name then ok (pos i) else rest)

unfoldable pub is_opening_with_name : Table → List ℕ → Exec ℤ
is_opening_with_name table name = opening_name_from table name 18 2

-- The pointer that is returned stands as the index of the slot.
unfoldable pub get_file_descriptor : Table → ℤ → Option ℕ
get_file_descriptor table id = elim (is_opening table id) [ pos i ↦ some i | negsuc n ↦ none ]

module _ (host : Host) where
  open host use {World}

  -- `_table[slot].Open_File(name, type)` where a slot was found.
  open_in : Table → List ℕ → ℤ → ℤ → World → Exec (ℤ × Table × World)
  open_in table name type (negsuc n) w = ok (minus_one, table, w)
  open_in table name type (pos i) w = do
    (r, fd, w') ← open_file host (slot table i) name type w
    ok (if r ==ℤ minus_one then minus_one else fd.id, set table i fd, w')

  pub open_entry : Table → List ℕ → ℤ → World → Exec (ℤ × Table × World)
  unfolding open_in
  open_entry table name type w = open_in table name type (find_free_slot table) w

  unfoldable pub close_in : Table → ℤ → World → Exec (ℤ × Table × World)
  close_in table (negsuc n) w = ok (minus_one, table, w)
  close_in table (pos i) w = do
    (r, fd, w') ← close_file host (slot table i) w
    ok (r, set table i fd, w')

  unfoldable pub close_entry : Table → ℤ → World → Exec (ℤ × Table × World)
  unfolding close_in
  close_entry table id w = close_in table (is_opening table id) w

  socket_in : Table → ℤ → World → Exec (ℤ × Table × World)
  socket_in table (negsuc n) w = ok (minus_one, table, w)
  socket_in table (pos i) w =
      let (r, fd, w') = socket_tcp host (slot table i) w in ok (r, set table i fd, w')

  pub socket_entry : Table → World → Exec (ℤ × Table × World)
  unfolding socket_in
  socket_entry table w = socket_in table (find_free_slot table) w

  pub connect_entry : Table → ℤ → List ℕ → ℤ → World → ℤ × World
  connect_entry table id address port w = elim (is_opening table id) [
    | pos i ↦ connect_to host id address port w
    | negsuc n ↦ (minus_one, w)
  ]

  pub send_entry : Table → ℤ → List ℕ → ℕ → World → ℤ × World
  send_entry table id buffer len w = elim (is_opening table id) [
    | pos i ↦ send_on host id buffer len w
    | negsuc n ↦ (minus_one, w)
  ]

  -- With the buffer as it is afterwards.
  unfoldable pub receive_entry : Table → ℤ → List ℕ → ℕ → World → ℤ × List ℕ × World
  receive_entry table id buffer len w = elim (is_opening table id) [
    | pos i ↦ receive_on host id buffer len w
    | negsuc n ↦ (minus_one, buffer, w)
  ]

  close_socket_in : Table → ℤ → World → Exec (ℤ × Table × World)
  close_socket_in table (negsuc n) w = ok (minus_one, table, w)
  close_socket_in table (pos i) w =
      let (r, fd, w') = close_socket host (slot table i) w in ok (r, set table i fd, w')

  pub close_socket_entry : Table → ℤ → World → Exec (ℤ × Table × World)
  unfolding close_socket_in
  close_socket_entry table id w = close_socket_in table (is_opening table id) w
