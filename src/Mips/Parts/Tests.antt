-- ===== src/Mips/Parts/Tests.antt =====
-- The theorem about LWR and LWL at address 3, with the eight bytes at the start of a frame.
use project.Prelude.{
  ℕ, zero, suc, ◌-◌, ◌<◌, ◌≡◌, refl, arith, List, [], ◌∷◌, none, some, ok, Bool, true, false, ltb,
  ◌&&◌, replicate, ◌++◌, length-replicate, get_or-replicate, ap, sym, ◌∙◌, length, Exec,
}
use project.Machine.{Machine, TranslationEntry, memory_size, value, read_mem, translate}
use project.Machine.Bytes.{load}
use project.Machine.Valid.{IsValid}
use project.Mips.OpCode.{op_lwl, op_lwr}
use project.Mips.Decode.{decode}
use project.Mips.Word.{word}
use project.Mips.Cpu.{reg, put, merge_lwr}
use project.Mips.Execute.{run, Outcome, completed, execute, load_part, finish, delayed_load}
use project.Mips.Retire.{IsReady}
use project.Mips.Unaligned.{AreBytes}
use project.Mips.Parts.{Loads, load_unaligned}

all_bytes : List ℕ → Bool
all_bytes [] = true
all_bytes (x ∷ xs) = ltb x 256 && all_bytes xs

bytes : (xs : List ℕ) → all_bytes xs ≡ true → AreBytes xs
unfolding all_bytes
bytes [] h p = omega arith
bytes (x ∷ xs) h zero = ground arith
bytes (x ∷ xs) h (suc p) = bytes xs (ground arith) p

abbrev eight : List ℕ
eight = 1 ∷ 2 ∷ 3 ∷ 4 ∷ 5 ∷ 6 ∷ 7 ∷ 255 ∷ []

eight-AreBytes : AreBytes eight
unfolding all_bytes
eight-AreBytes = bytes eight refl

abbrev page : TranslationEntry
page = record {
  virtual_page = 0;
  physical_page = 0;
  valid = true;
  read_only = false;
  used = true;
  dirty = false;
}

abbrev machine : List ℕ → Machine
machine registers = record {
  main_memory = 1 ∷ 2 ∷ 3 ∷ 4 ∷ 5 ∷ 6 ∷ 7 ∷ 255 ∷ replicate (memory_size - 8) 0;
  tlb = none;
  page_table = some (page ∷ []);
  page_table_size = 1;
  registers = registers;
}

abbrev start : Machine
start = machine (replicate 40 0)

-- After `LWR r2, 3(r0)`: the byte 4 goes to the low end of r2.
abbrev between : Machine
between = machine (0 ∷ 0 ∷ 0 ∷ 0 ∷ replicate 30 0 ++ (0 ∷ 4 ∷ 0 ∷ 2 ∷ 4 ∷ 0 ∷ []))

runs_lwr : run 0x98020003 start ≡ ok (completed between)
unfolding run execute load_part finish delayed_load put merge_lwr read_mem translate decode load
    project.Machine.use_entry
runs_lwr = refl

machine-IsValid : (registers : List ℕ) → length registers ≡ 40 → IsValid (machine registers)
machine-IsValid registers h = record {
  memory = omega (arith, length-replicate {A = ℕ} (memory_size - 8) 0);
  registers = h;
  one_table = omega arith;
}

start-IsReady : IsReady start
start-IsReady = record {
  valid = machine-IsValid (replicate 40 0) refl;
  zero_reg = refl;
  target = omega arith;
}

start-words : (j : ℕ) → reg start j < word
start-words j = omega (arith, get_or-replicate {A = ℕ} 40 j 0)

lwr-Loads : Loads op_lwr 2 3 0x98020003 start
unfolding decode
lwr-Loads = record { op_code = refl; target = refl; address = refl }

lwl-Loads : Loads op_lwl 2 6 0x88020006 between
unfolding decode
lwl-Loads = record { op_code = refl; target = refl; address = refl }

reads_first : read_mem start 0 4 ≡ ok (value (load eight 0 4), start)
unfolding read_mem translate load project.Machine.use_entry
reads_first = refl

reads_second : read_mem between 4 4 ≡ ok (value (load eight 4 4), between)
unfolding read_mem translate load project.Machine.use_entry
reads_second = refl

abbrev registers_of : Exec Outcome → List ℕ
registers_of (ok (completed m)) = m.registers
registers_of _ = []

load_unaligned_example :
    (last : Machine) × (run 0x98020003 start ≡ ok (completed last))
    × ((next : Machine) × (run 0x88020006 between ≡ ok (completed next))
        × ((end : Machine) × (delayed_load next 0 0 ≡ ok end) × (reg end 2 ≡ load eight 3 4)))
load_unaligned_example =
    load_unaligned eight start start between between 3 2 0x98020003 0x88020006 0 0 eight-AreBytes
      start-IsReady start-words (omega arith) (omega arith) lwr-Loads reads_first
      (λ last e. (machine-IsValid between.registers refl, ap registers_of (sym runs_lwr ∙ e)))
      lwl-Loads reads_second
