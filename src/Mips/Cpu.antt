-- ===== src/Mips/Cpu.antt =====
-- The steps that the cases of `Machine::OneInstruction` of machine/mipssim.cc are made of, built
-- with SIM_FIX.
use project.Prelude.{
  ℕ, Bool, ◌&&◌, Exec, ok, ◌>>=◌, ◌==◌, if◌then◌else◌, bit_and, bit_or, get_or, set,
}
use project.Machine.{
  next_pc_reg, Machine, ExceptionType, Access, value, raised, read_mem, write_mem,
  overflow_exception,
}
use project.Mips.Word.{add, has, shift_left, shift_right}

abbrev pub r31 : ℕ
r31 = 31

abbrev pub hi_reg : ℕ
hi_reg = 32

abbrev pub lo_reg : ℕ
lo_reg = 33

abbrev pub load_reg : ℕ
load_reg = 37

abbrev pub load_value_reg : ℕ
load_value_reg = 38

abbrev pub bad_vaddr_reg : ℕ
bad_vaddr_reg = 39

-- `registers[i]`. Every index but `registers[LoadReg]` is a constant or five bits of an instruction.
abbrev pub reg : Machine → ℕ → ℕ
reg m i = get_or m.registers i 0

unfoldable pub put : Machine → ℕ → ℕ → Machine
put m i v = record m { registers = set m.registers i v }

-- How the `switch` ends: with a break, where the machine, `pcAfter`, `nextLoadReg` and
-- `nextLoadValue` are what is left, or with a return after `RaiseException`.
pub data Effect : Type 0 where
  proceeds : Machine → ℕ → ℕ → ℕ → Effect
  raises : Machine → ExceptionType → ℕ → Effect

-- `IndexToAddr`
abbrev pub index_to_addr : ℕ → ℕ
index_to_addr x = shift_left x 2

abbrev pub pc_after : Machine → ℕ
pc_after m = add (reg m next_pc_reg) 4

-- The result of an operation goes to a register.
abbrev pub computes : Machine → ℕ → ℕ → Exec Effect
computes m r v = ok (proceeds (put m r v) (pc_after m) 0 0)

abbrev pub computes_pair : Machine → ℕ → ℕ → Exec Effect
computes_pair m lo hi = ok (proceeds (put (put m lo_reg lo) hi_reg hi) (pc_after m) 0 0)

abbrev pub jumps : Machine → ℕ → Exec Effect
jumps m target = ok (proceeds m target 0 0)

abbrev pub branches : Machine → Bool → ℕ → Exec Effect
branches m test extra =
    jumps m (if test then add (reg m next_pc_reg) (index_to_addr extra) else pc_after m)

-- `registers[r] = registers[NextPCReg] + 4`
abbrev pub link : Machine → ℕ → Machine
link m r = put m r (add (reg m next_pc_reg) 4)

abbrev pub loaded : ℕ → (Machine → ℕ → Exec Effect) → Access × Machine → Exec Effect
loaded addr next (raised e, m) = ok (raises m e addr)
loaded addr next (value v, m) = next m v

-- `if (!ReadMem(addr, size, &value)) return;`, and likewise `WriteMem`.
abbrev pub reads : Machine → ℕ → ℕ → (Machine → ℕ → Exec Effect) → Exec Effect
reads m addr size next = read_mem m addr size >>= loaded addr next

abbrev pub writes : Machine → ℕ → ℕ → ℕ → Exec Effect
writes m addr size v =
    write_mem m addr size v >>= loaded addr (λ m' _. ok (proceeds m' (pc_after m') 0 0))

-- A load that is done after the next instruction.
abbrev pub delays : Machine → ℕ → ℕ → Exec Effect
delays m r v = ok (proceeds m (pc_after m) r v)

abbrev pub extend_byte : Bool → ℕ → ℕ
extend_byte signed v = if has v 0x80 && signed then bit_or v 0xffffff00 else bit_and v 0xff

abbrev pub extend_half : Bool → ℕ → ℕ
extend_half signed v = if has v 0x8000 && signed then bit_or v 0xffff0000 else bit_and v 0xffff

-- The register as it will be after the delayed load.
abbrev pub pending : Machine → ℕ → ℕ
pending m rt = if reg m load_reg == rt then reg m load_value_reg else reg m rt

-- The four cases of `switch (3 - byte)`.
abbrev pub by_byte : ℕ → ℕ → ℕ → ℕ → ℕ → ℕ
by_byte byte c0 c1 c2 c3 =
    if byte == 3 then c0 else if byte == 2 then c1 else if byte == 1 then c2 else c3

unfoldable pub merge_lwl : ℕ → ℕ → ℕ → ℕ
merge_lwl byte v old =
    by_byte byte v (bit_or (bit_and old 0xff) (shift_left v 8))
      (bit_or (bit_and old 0xffff) (shift_left v 16))
      (bit_or (bit_and old 0xffffff) (shift_left v 24))

unfoldable pub merge_lwr : ℕ → ℕ → ℕ → ℕ
merge_lwr byte v old =
    by_byte byte (bit_or (bit_and old 0xffffff00) (bit_and (shift_right v 24) 0xff))
      (bit_or (bit_and old 0xffff0000) (bit_and (shift_right v 16) 0xffff))
      (bit_or (bit_and old 0xff000000) (bit_and (shift_right v 8) 0xffffff)) v

unfoldable pub merge_swl : ℕ → ℕ → ℕ → ℕ
merge_swl byte v t =
    by_byte byte t (bit_or (bit_and v 0xff000000) (bit_and (shift_right t 8) 0xffffff))
      (bit_or (bit_and v 0xffff0000) (bit_and (shift_right t 16) 0xffff))
      (bit_or (bit_and v 0xffffff00) (bit_and (shift_right t 24) 0xff))

unfoldable pub merge_swr : ℕ → ℕ → ℕ → ℕ
merge_swr byte v t =
    by_byte byte (bit_or (bit_and v 0xffffff) (shift_left t 24))
      (bit_or (bit_and v 0xffff) (shift_left t 16)) (bit_or (bit_and v 0xff) (shift_left t 8)) t

abbrev pub overflows : Machine → Exec Effect
overflows m = ok (raises m overflow_exception 0)
