-- ===== src/AddrSpace.antt =====
-- userprog/addrspace.h, userprog/addrspace.cc and the file format of userprog/noff.h: the frames that
-- a user program is given, its page table, and how its file is loaded. The kernel runs one loader
-- at a time (`addrLock`). Sizes and addresses in the file are non-negative.
pub mod Reserve
pub mod Release
pub mod Isolation
pub mod Agree
mod Tests
use project.Prelude.{
  ℕ, zero, suc, ◌+◌, ◌-◌, ◌*◌, ◌/◌, ◌%◌, ◌^◌, Bool, true, false, not, ◌&&◌, List, [], ◌∷◌, Option,
  none, some, ℤ, pos, negsuc, minus_one, Exec, ok, undefined, ◌>>=◌, ◌>>◌, assert, defined, ltb,
  leb, ◌==◌, ◌==ℤ◌, if◌then◌else◌, length, get_elem?, set, replicate, take, drop,
}
use project.Bitmap.{Bitmap, div_round_up, clear, find_and_set, num_clear}
use project.Host.{Host, open_for_read_write, close, lseek, read_partial}
use project.Machine.{
  Machine, TranslationEntry, Translation, physical, raises, page_size, num_phys_pages, memory_size,
  num_total_regs, write_register, address_error_exception, read_only_exception, bus_error_exception,
}
use project.Machine.Bytes.{load as number}

pub record AddrSpace : Type 0 where
  pub page_table : Option (List TranslationEntry)
  pub num_pages : ℕ

abbrev pub user_stack_size : ℕ
user_stack_size = 1024

abbrev pub noff_magic : ℕ
noff_magic = 0xbadfad

-- The constructor.
abbrev pub new_space : AddrSpace
new_space = record { page_table = none; num_pages = 0 }

-- `bcopy` to `p`, or `bzero` with zeros. Outside of the buffer C defines nothing.
pub write_bytes : List ℕ → ℕ → List ℕ → List ℕ
write_bytes mem p [] = mem
write_bytes mem p (b ∷ bytes) = write_bytes (set mem p b) (p + 1) bytes

pub copy_to : List ℕ → ℕ → List ℕ → Exec (List ℕ)
copy_to mem p bytes =
    if leb (p + length bytes) (length mem) then ok (write_bytes mem p bytes) else undefined

abbrev pub fresh_entry : ℕ → ℕ → TranslationEntry
fresh_entry i frame = record {
  virtual_page = i;
  physical_page = frame;
  valid = true;
  read_only = false;
  used = false;
  dirty = false;
}

-- The `bzero` of the frame that `FindAndSet` gave. The address of frame -1 is outside the memory.
pub zero_frame : ℤ → List ℕ → Exec (ℕ × List ℕ)
zero_frame (negsuc n) mem = undefined
zero_frame (pos f) mem =
    copy_to mem (f * page_size) (replicate page_size 0) >>= λ mem'. ok (f, mem')

-- The loop over the pages, with `left` pages to go.
pub allocate_pages : ℕ → ℕ → Bitmap → List ℕ → Exec (List TranslationEntry × Bitmap × List ℕ)
allocate_pages zero i map mem = ok ([], map, mem)
allocate_pages (suc left) i map mem = do
  (frame, map') ← find_and_set map
  (f, mem') ← zero_frame frame mem
  (table, map'', mem'') ← allocate_pages left (i + 1) map' mem'
  ok (fresh_entry i f ∷ table, map'', mem'')

-- The frames for `n` pages, or `none` where there are too few.
pub reserve : ℕ → Bitmap → List ℕ → Exec (Option (List TranslationEntry × Bitmap × List ℕ))
reserve n map mem = do
  room ← num_clear map
  if ltb room n then ok none else (allocate_pages n 0 map mem >>= λ t. ok (some t))

-- The destructor.
pub release_from : List TranslationEntry → ℕ → ℕ → Bitmap → Exec Bitmap
release_from table zero i map = ok map
release_from table (suc left) i map = do
  e ← defined (get_elem? table i)
  map' ← clear map (pos e.physical_page)
  release_from table left (i + 1) map'

pub release : AddrSpace → Bitmap → Exec Bitmap
release space map = elim space.page_table [
  | some table ↦ release_from table space.num_pages 0 map
  | none ↦ release_from [] space.num_pages 0 map
]

pub record Segment : Type 0 where
  pub virtual_addr : ℕ
  pub in_file_addr : ℕ
  pub size : ℕ

pub record NoffHeader : Type 0 where
  pub noff_magic : ℕ
  pub code : Segment
  pub init_data : Segment
  pub readonly_data : Segment
  pub uninit_data : Segment

-- The header that stands in its 52 bytes.
abbrev pub segment_at : List ℕ → ℕ → Segment
segment_at bytes p = record {
  virtual_addr = number bytes p 4;
  in_file_addr = number bytes (p + 4) 4;
  size = number bytes (p + 8) 4;
}

abbrev pub header_of : List ℕ → NoffHeader
header_of bytes = record {
  noff_magic = number bytes 0 4;
  code = segment_at bytes 4;
  init_data = segment_at bytes 16;
  readonly_data = segment_at bytes 28;
  uninit_data = segment_at bytes 40;
}

-- The bytes of the program that the file holds, and those that it occupies.
abbrev pub file_bytes : NoffHeader → ℕ
file_bytes h = h.code.size + h.init_data.size + h.readonly_data.size

abbrev pub space_bytes : NoffHeader → ℕ
space_bytes h =
    h.code.size + h.init_data.size + h.uninit_data.size + h.readonly_data.size + user_stack_size

-- The loop that copies the buffer to the frames.
pub copy_pages : ℕ → ℕ → List TranslationEntry → List ℕ → List ℕ → Exec (List ℕ)
copy_pages zero i table buffer mem = ok mem
copy_pages (suc left) i table buffer mem = do
  let offset = i * page_size
  let size = if ltb (length buffer) (offset + page_size) then length buffer - offset else page_size
  e ← defined (get_elem? table i)
  mem' ← copy_to mem (e.physical_page * page_size) (take size (drop offset buffer))
  copy_pages left (i + 1) table buffer mem'

module _ (host : Host) where
  open host use {World}

  -- `OpenFile::ReadAt`. A failed `read` leaves the buffer alone.
  pub read_at_offset : ℤ → ℕ → ℕ → World → Exec (List ℕ × World)
  read_at_offset fd offset n w = do
    w₁ ← lseek host fd (pos offset) 0 w
    let (bytes, w₂) = read_partial host fd n w₁
    ok (elim bytes [ none ↦ [] | some b ↦ b ], w₂)

  pub load_segment : ℤ → Segment → List ℕ → World → Exec (List ℕ × World)
  load_segment fd s buffer w =
      if ltb 0 s.size
      then (read_at_offset fd s.in_file_addr s.size w >>= λ t.
          copy_to buffer s.virtual_addr t.0 >>= λ buffer'. ok (buffer', t.1))
      else ok (buffer, w)

  -- The header, of which every byte must have been read.
  pub read_header : ℤ → World → Exec (NoffHeader × World)
  read_header fd w = do
    (bytes, w₁) ← read_at_offset fd 0 52 w
    if ltb (length bytes) 52 then undefined else ok (header_of bytes, w₁)

  pub fill_pages : ℤ → NoffHeader → List TranslationEntry → List ℕ → World → Exec (List ℕ × World)
  fill_pages fd h table mem w = do
    (b₁, w₁) ← load_segment fd h.code (replicate (file_bytes h) 0) w
    (b₂, w₂) ← load_segment fd h.init_data b₁ w₁
    (b₃, w₃) ← load_segment fd h.readonly_data b₂ w₂
    mem' ← copy_pages (div_round_up (file_bytes h) page_size) 0 table b₃ mem
    ok (mem', w₃)

  -- `Load`, with the result, the address space, the map of frames and the memory.
  pub load_program :
      AddrSpace
      → List ℕ
      → Bitmap
      → List ℕ
      → World
      → Exec (Bool × AddrSpace × Bitmap × List ℕ × World)
  load_program space name map mem w = do
    (fd, w₁) ← open_for_read_write host name false w
    if fd ==ℤ minus_one
        then ok (false, space, map, mem, w₁)
        else (read_header fd w₁ >>= λ t.
            let n = div_round_up (space_bytes t.0) page_size in
            assert (t.0.noff_magic == noff_magic)
            >> (reserve n map mem >>= λ r. elim r [
              | none ↦ close host fd t.1 >>= λ c.
                  ok (false, record space { num_pages = 0 }, map, mem, c.1)
              | some p ↦ fill_pages fd t.0 p.0 p.2 t.1 >>= λ f. close host fd f.1 >>= λ c.
                  ok (true, record { page_table = some p.0; num_pages = n }, p.1, f.0, c.1)
            ]))

-- `RestoreState`
pub restore_state : AddrSpace → Machine → Machine
restore_state space m = record m {
  page_table = space.page_table;
  page_table_size = space.num_pages;
}

-- The loop of `InitRegisters`.
pub clear_registers : ℕ → ℕ → Machine → Exec Machine
clear_registers zero i m = ok m
clear_registers (suc left) i m = write_register m i 0 >>= clear_registers left (i + 1)

pub init_registers : AddrSpace → Machine → Exec Machine
init_registers space m = do
  m₀ ← clear_registers num_total_regs 0 m
  m₁ ← write_register m₀ 34 0
  m₂ ← write_register m₁ 35 4
  write_register m₂ 29 ((space.num_pages * page_size + 2 ^ 32 - 16) % 2 ^ 32)

-- The checks of `Translate` on the entry of the page, with the entry as it leaves it.
abbrev pub translate_entry : TranslationEntry → ℕ → Bool → Exec (Translation × TranslationEntry)
translate_entry e offset writing =
    if writing && e.read_only
    then ok (raises read_only_exception, e)
    else if leb num_phys_pages e.physical_page
    then ok (raises bus_error_exception, e)
    else (assert (ltb (e.physical_page * page_size + offset) memory_size)
        >> ok (
          physical (e.physical_page * page_size + offset),
          record e { used = true; dirty = if writing then true else e.dirty },
        ))

pub translate_space : AddrSpace → ℕ → Bool → Exec (Translation × AddrSpace)
translate_space space vaddr writing =
    if leb space.num_pages (vaddr / page_size)
    then ok (raises address_error_exception, space)
    else (defined space.page_table >>= λ table.
        defined (get_elem? table (vaddr / page_size)) >>= λ e.
        translate_entry e (vaddr % page_size) writing >>= λ t.
        ok (t.0, record space { page_table = some (set table (vaddr / page_size) t.1) }))
