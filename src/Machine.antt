-- ===== src/Machine.antt =====
-- machine/machine.h, machine/translate.h, machine/translate.cc and the registers of
-- machine/machine.cc: the simulated CPU's memory, its page table or TLB, and the accesses of a user
-- program. An `int` that is an address or a register stands as its 32-bit pattern. The host is
-- little-endian (HOST_IS_BIG_ENDIAN is not defined), so `WordToHost` and its like are identities.
pub mod Bytes
pub mod Valid
pub mod Translate
pub mod Grant
pub mod Memory
mod Tests
use project.Prelude.{
  ℕ, zero, suc, ◌+◌, ◌-◌, ◌*◌, ◌/◌, ◌%◌, ◌^◌, Bool, true, false, not, ◌&&◌, ◌||◌, List, [], ◌∷◌,
  Exec, ok, aborted, undefined, ◌>>=◌, ◌>>◌, assert, defined, Option, none, some, ltb, leb, ◌==◌,
  if◌then◌else◌, get_elem?, set,
}
use Bytes.{load, store}

abbrev pub page_size : ℕ
page_size = 128

abbrev pub num_phys_pages : ℕ
num_phys_pages = 128

abbrev pub memory_size : ℕ
memory_size = num_phys_pages * page_size

abbrev pub num_total_regs : ℕ
num_total_regs = 40

abbrev pub pc_reg : ℕ
pc_reg = 34

abbrev pub next_pc_reg : ℕ
next_pc_reg = 35

abbrev pub prev_pc_reg : ℕ
prev_pc_reg = 36

pub data ExceptionType : Type 0 where
  no_exception syscall_exception page_fault_exception : ExceptionType
  read_only_exception bus_error_exception address_error_exception : ExceptionType
  overflow_exception illegal_instr_exception num_exception_types : ExceptionType

pub record TranslationEntry : Type 0 where
  pub virtual_page : ℕ
  pub physical_page : ℕ
  pub valid : Bool
  pub read_only : Bool
  pub used : Bool
  pub dirty : Bool

-- `none` is a NULL table.
pub record Machine : Type 0 where
  pub main_memory : List ℕ
  pub tlb : Option (List TranslationEntry)
  pub page_table : Option (List TranslationEntry)
  pub page_table_size : ℕ
  pub registers : List ℕ

-- What `Translate` gives: the physical address, or an exception.
pub data Translation : Type 0 where
  physical : ℕ → Translation
  raises : ExceptionType → Translation

-- The entry that serves a virtual page, with its index, or the exception.
pub data Lookup : Type 0 where
  found : ℕ → TranslationEntry → Lookup
  missing : ExceptionType → Lookup

abbrev pub table_lookup : List TranslationEntry → ℕ → ℕ → Exec Lookup
table_lookup table size vpn =
    if leb size vpn
    then ok (missing address_error_exception)
    else (defined (get_elem? table vpn) >>= λ e.
        ok (if not e.valid then missing page_fault_exception else found vpn e))

-- The scan of the TLB, from entry `i` on.
abbrev pub tlb_lookup : List TranslationEntry → ℕ → ℕ → Lookup
tlb_lookup [] i vpn = missing page_fault_exception
tlb_lookup (e ∷ es) i vpn =
    if e.valid && e.virtual_page == vpn then found i e else tlb_lookup es (i + 1) vpn

-- There must be a TLB or a page table, and not both.
abbrev pub lookup_in :
    Option (List TranslationEntry) → Option (List TranslationEntry) → ℕ → ℕ → Exec Lookup
lookup_in (some tlb) (some table) size vpn = aborted
lookup_in none none size vpn = aborted
lookup_in none (some table) size vpn = table_lookup table size vpn
lookup_in (some tlb) none size vpn = ok (tlb_lookup tlb 0 vpn)

-- Entry `i` of the table in use, written back.
abbrev pub put_entry : Machine → ℕ → TranslationEntry → Machine
put_entry m i e = record m {
  tlb = elim m.tlb [ none ↦ none | some t ↦ some (set t i e) ];
  page_table = elim m.tlb [
    | none ↦ elim m.page_table [ none ↦ none | some t ↦ some (set t i e) ]
    | some t ↦ m.page_table
  ];
}

-- The checks on the entry that was found, and the physical address.
unfoldable pub use_entry :
    Machine → ℕ → TranslationEntry → ℕ → ℕ → Bool → Exec (Translation × Machine)
use_entry m i e offset size writing =
    if e.read_only && writing
    then ok (raises read_only_exception, m)
    else if leb num_phys_pages e.physical_page
    then ok (raises bus_error_exception, m)
    else let addr = e.physical_page * page_size + offset in
      (assert (leb (addr + size) memory_size)
        >> ok (
          physical addr,
          put_entry m i (record e { used = true; dirty = if writing then true else e.dirty }),
        ))

abbrev pub misaligned : ℕ → ℕ → Bool
misaligned addr size = (size == 4 && not (addr % 4 == 0)) || (size == 2 && not (addr % 2 == 0))

abbrev pub resolve : Machine → ℕ → ℕ → Bool → Lookup → Exec (Translation × Machine)
resolve m offset size writing (missing e) = ok (raises e, m)
resolve m offset size writing (found i e) = use_entry m i e offset size writing

unfoldable pub translate : Machine → ℕ → ℕ → Bool → Exec (Translation × Machine)
translate m addr size writing =
    if misaligned addr size
    then ok (raises address_error_exception, m)
    else (lookup_in m.tlb m.page_table m.page_table_size (addr / page_size)
        >>= resolve m (addr % page_size) size writing)

-- The outcome of a memory access: a value, or the exception that `RaiseException` is called with.
pub data Access : Type 0 where
  value : ℕ → Access
  raised : ExceptionType → Access

-- `(int) c` for a `char c` with the bits of `b`: the sign is extended.
abbrev pub sign_extend : ℕ → ℕ
sign_extend b = if ltb b 128 then b else 2 ^ 32 - 256 + b

-- What `*value` gets from the bytes, by the size of the access.
abbrev pub widen : ℕ → ℕ → ℕ
widen size v = if size == 1 then sign_extend v else v

abbrev pub valid_size : ℕ → Bool
valid_size size = size == 1 || (size == 2 || size == 4)

abbrev pub read_at : ℕ → Translation × Machine → Exec (Access × Machine)
read_at size (raises e, m) = ok (raised e, m)
read_at size (physical p, m) =
    assert (valid_size size) >> ok (value (widen size (load m.main_memory p size)), m)

unfoldable pub read_mem : Machine → ℕ → ℕ → Exec (Access × Machine)
read_mem m addr size = translate m addr size false >>= read_at size

abbrev pub write_at : ℕ → ℕ → Translation × Machine → Exec (Access × Machine)
write_at size v (raises e, m) = ok (raised e, m)
write_at size v (physical p, m) =
    assert (valid_size size)
    >> ok (value v, record m { main_memory = store m.main_memory p size v })

unfoldable pub write_mem : Machine → ℕ → ℕ → ℕ → Exec (Access × Machine)
write_mem m addr size v = translate m addr size true >>= write_at size v

unfoldable pub read_register : Machine → ℕ → Exec ℕ
read_register m num = assert (ltb num num_total_regs) >> defined (get_elem? m.registers num)

unfoldable pub write_register : Machine → ℕ → ℕ → Exec Machine
write_register m num v =
    assert (ltb num num_total_regs) >> ok (record m { registers = set m.registers num v })
