-- ===== src/Mips/Tests.antt =====
-- The theorems about the processor at chosen operands, and one instruction of a program.
use project.Prelude.{
  ℕ, ◌≡◌, refl, ◌∙◌, ◌⊎◌, true, false, List, [], ◌∷◌, none, some, arith, undefined, Returns,
  replicate, length-replicate, ◌+ℤ◌, ◌-ℤ◌, ◌*ℤ◌,
}
use project.Machine.{Machine, TranslationEntry, memory_size}
use project.Machine.Bytes.{store, length-store}
use project.Machine.Valid.{IsValid}
use project.Mips.OpCode.{op_add, op_sub, op_addi}
use project.Mips.Decode.{Instruction, decode}
use project.Mips.Decoded.{IsDecoded, decode-IsDecoded}
use project.Mips.Word.{to_int}
use project.Mips.Mult.{mult}
use project.Mips.Rounds.{double}
use project.Mips.Product.{to_long, mult_signed}
use project.Mips.Execute.{execute, one_instruction}
use project.Mips.Retire.{IsReady, Sound}
use project.Mips.Cycle.{DividesOut, one_instruction-Sound}
use project.Mips.Overflow.{Checked, exact_or_overflow}

-- -3 times 5.
mult_signed_example :
    to_long (double (mult 0xfffffffd 5 true).lo (mult 0xfffffffd 5 true).hi)
    ≡ to_int 0xfffffffd *ℤ to_int 5
mult_signed_example = mult_signed 0xfffffffd 5 (omega arith) (omega arith)

decode-IsDecoded_example : IsDecoded (decode 0x24020005)
decode-IsDecoded_example = decode-IsDecoded 0x24020005

abbrev program : List ℕ
program = store (replicate memory_size 0) 640 4 0x24020005

abbrev page : TranslationEntry
page = record {
  virtual_page = 0;
  physical_page = 5;
  valid = true;
  read_only = false;
  used = false;
  dirty = false;
}

-- `ADDIU r2, r0, 5` is the first instruction.
abbrev loaded_program : Machine
loaded_program = record {
  main_memory = program;
  tlb = none;
  page_table = some (page ∷ []);
  page_table_size = 1;
  registers = replicate 40 0;
}

loaded_program-IsValid : IsValid loaded_program
loaded_program-IsValid = record {
  memory =
      length-store 4 640 0x24020005 (replicate memory_size 0)
      ∙ length-replicate {A = ℕ} memory_size 0;
  registers = length-replicate {A = ℕ} 40 0;
  one_table = omega arith;
}

loaded_program-IsReady : IsReady loaded_program
loaded_program-IsReady = record {
  valid = loaded_program-IsValid;
  zero_reg = refl;
  target = omega arith;
}

one_instruction-Sound_example :
    Returns (Sound loaded_program) (one_instruction loaded_program)
    ⊎ (DividesOut loaded_program × (one_instruction loaded_program ≡ undefined))
one_instruction-Sound_example = one_instruction-Sound loaded_program loaded_program-IsReady

-- The largest `int` plus 1 overflows; 0x7fffffff - 1 and 0x7fffffff + (-1) do not.
abbrev sum_instruction : Instruction
sum_instruction = record { op_code = op_add; rs = 1; rt = 2; rd = 3; extra = 0xffffffff }

exact_or_overflow_example :
    Checked loaded_program 3
      (to_int 0x7fffffff +ℤ to_int 1)
      (execute op_add sum_instruction loaded_program 0x7fffffff 1)
    × Checked loaded_program 3
        (to_int 0x7fffffff -ℤ to_int 1)
        (execute op_sub sum_instruction loaded_program 0x7fffffff 1)
    × Checked loaded_program 2
        (to_int 0x7fffffff +ℤ to_int 0xffffffff)
        (execute op_addi sum_instruction loaded_program 0x7fffffff 1)
exact_or_overflow_example =
    exact_or_overflow sum_instruction loaded_program 0x7fffffff 1 (omega arith) (omega arith)
      (omega arith)
