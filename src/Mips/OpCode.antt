-- ===== src/Mips/OpCode.antt =====
-- machine/mipssim.h: the operation codes, and the tables that decode them.
use project.Prelude.{List, [], ◌∷◌}

pub data OpCode : Type 0 where
  op_add op_addi op_addiu op_addu op_and op_andi op_beq op_bgez op_bgezal op_bgtz op_blez : OpCode
  op_bltz op_bltzal op_bne op_div op_divu op_j op_jal op_jalr op_jr op_lb op_lbu op_lh : OpCode
  op_lhu op_lui op_lw op_lwl op_lwr op_mfhi op_mflo op_mthi op_mtlo op_mult op_multu op_nor : OpCode
  op_or op_ori op_rfe op_sb op_sh op_sll op_sllv op_slt op_slti op_sltiu op_sltu op_sra : OpCode
  op_srav op_srl op_srlv op_sub op_subu op_sw op_swl op_swr op_xor op_xori op_syscall : OpCode
  op_unimp op_res special bcond : OpCode

pub data Format : Type 0 where
  ifmt jfmt rfmt : Format

-- By bits 31 to 26 of an instruction.
abbrev pub op_table : List (OpCode × Format)
op_table =
    (special, rfmt)
    ∷ (bcond, ifmt)
    ∷ (op_j, jfmt)
    ∷ (op_jal, jfmt)
    ∷ (op_beq, ifmt)
    ∷ (op_bne, ifmt)
    ∷ (op_blez, ifmt)
    ∷ (op_bgtz, ifmt)
    ∷ (op_addi, ifmt)
    ∷ (op_addiu, ifmt)
    ∷ (op_slti, ifmt)
    ∷ (op_sltiu, ifmt)
    ∷ (op_andi, ifmt)
    ∷ (op_ori, ifmt)
    ∷ (op_xori, ifmt)
    ∷ (op_lui, ifmt)
    ∷ (op_unimp, ifmt)
    ∷ (op_unimp, ifmt)
    ∷ (op_unimp, ifmt)
    ∷ (op_unimp, ifmt)
    ∷ (op_res, ifmt)
    ∷ (op_res, ifmt)
    ∷ (op_res, ifmt)
    ∷ (op_res, ifmt)
    ∷ (op_res, ifmt)
    ∷ (op_res, ifmt)
    ∷ (op_res, ifmt)
    ∷ (op_res, ifmt)
    ∷ (op_res, ifmt)
    ∷ (op_res, ifmt)
    ∷ (op_res, ifmt)
    ∷ (op_res, ifmt)
    ∷ (op_lb, ifmt)
    ∷ (op_lh, ifmt)
    ∷ (op_lwl, ifmt)
    ∷ (op_lw, ifmt)
    ∷ (op_lbu, ifmt)
    ∷ (op_lhu, ifmt)
    ∷ (op_lwr, ifmt)
    ∷ (op_res, ifmt)
    ∷ (op_sb, ifmt)
    ∷ (op_sh, ifmt)
    ∷ (op_swl, ifmt)
    ∷ (op_sw, ifmt)
    ∷ (op_res, ifmt)
    ∷ (op_res, ifmt)
    ∷ (op_swr, ifmt)
    ∷ (op_res, ifmt)
    ∷ (op_unimp, ifmt)
    ∷ (op_unimp, ifmt)
    ∷ (op_unimp, ifmt)
    ∷ (op_unimp, ifmt)
    ∷ (op_res, ifmt)
    ∷ (op_res, ifmt)
    ∷ (op_res, ifmt)
    ∷ (op_res, ifmt)
    ∷ (op_unimp, ifmt)
    ∷ (op_unimp, ifmt)
    ∷ (op_unimp, ifmt)
    ∷ (op_unimp, ifmt)
    ∷ (op_res, ifmt)
    ∷ (op_res, ifmt)
    ∷ (op_res, ifmt)
    ∷ (op_res, ifmt)
    ∷ []

-- By the lowest six bits of a SPECIAL instruction.
abbrev pub special_table : List OpCode
special_table =
    op_sll ∷ op_res ∷ op_srl ∷ op_sra ∷ op_sllv ∷ op_res ∷ op_srlv ∷ op_srav ∷ op_jr ∷ op_jalr
    ∷ op_res ∷ op_res ∷ op_syscall ∷ op_unimp ∷ op_res ∷ op_res ∷ op_mfhi ∷ op_mthi ∷ op_mflo
    ∷ op_mtlo ∷ op_res ∷ op_res ∷ op_res ∷ op_res ∷ op_mult ∷ op_multu ∷ op_div ∷ op_divu ∷ op_res
    ∷ op_res ∷ op_res ∷ op_res ∷ op_add ∷ op_addu ∷ op_sub ∷ op_subu ∷ op_and ∷ op_or ∷ op_xor
    ∷ op_nor ∷ op_res ∷ op_res ∷ op_slt ∷ op_sltu ∷ op_res ∷ op_res ∷ op_res ∷ op_res ∷ op_res
    ∷ op_res ∷ op_res ∷ op_res ∷ op_res ∷ op_res ∷ op_res ∷ op_res ∷ op_res ∷ op_res ∷ op_res
    ∷ op_res ∷ op_res ∷ op_res ∷ op_res ∷ op_res ∷ []
