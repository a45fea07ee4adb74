-- ===== src/Mips/Decode.antt =====
-- `class Instruction` of machine/mipssim.cc and its `Decode`.
use project.Prelude.{ℕ, ◌/◌, ◌^◌, not, ◌==◌, if◌then◌else◌, bit_and, bit_or, get_or}
use project.Mips.OpCode.{
  OpCode, Format, op_table, special_table, ifmt, jfmt, rfmt, special, bcond, op_bltz, op_bgez,
  op_bltzal, op_bgezal, op_unimp,
}

pub record Instruction : Type 0 where
  pub op_code : OpCode
  pub rs : ℕ
  pub rt : ℕ
  pub rd : ℕ
  pub extra : ℕ

-- The tables have 64 entries and the index six bits, so the default is never read.
abbrev pub op_info : ℕ → OpCode × Format
op_info value = get_or op_table (bit_and (value / 2 ^ 26) 0x3f) (op_unimp, ifmt)

abbrev pub extra_of : ℕ → Format → ℕ
extra_of value ifmt =
    let extra = bit_and value 0xffff in
    if not (bit_and extra 0x8000 == 0) then bit_or extra 0xffff0000 else extra
extra_of value rfmt = bit_and (value / 2 ^ 6) 0x1f
extra_of value jfmt = bit_and value 0x3ffffff

abbrev pub branch_of : ℕ → OpCode
branch_of i =
    if i == 0
    then op_bltz
    else if i == 0x10000
    then op_bgez
    else if i == 0x100000
    then op_bltzal
    else if i == 0x110000
    then op_bgezal
    else op_unimp

abbrev pub refine : ℕ → OpCode → OpCode
refine value special = get_or special_table (bit_and value 0x3f) op_unimp
refine value bcond = branch_of (bit_and value 0x1f0000)
refine value other = other

unfoldable pub decode : ℕ → Instruction
decode value =
    let info = op_info value in
    record {
      op_code = refine value info.0;
      rs = bit_and (value / 2 ^ 21) 0x1f;
      rt = bit_and (value / 2 ^ 16) 0x1f;
      rd = bit_and (value / 2 ^ 11) 0x1f;
      extra = extra_of value info.1;
    }
