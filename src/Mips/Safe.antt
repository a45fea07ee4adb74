-- ===== src/Mips/Safe.antt =====
-- Every case of the `switch` ends, and leaves the registers from PCReg on to the end of the
-- instruction.
use project.Prelude.{ℕ, ◌-◌, ◌<◌, ◌≡◌, refl, Bool, true, false, ◌&&◌, arith, Returns, ◌==◌, bit_and}
use project.Machine.{Machine, overflow_exception, address_error_exception}
use project.Machine.Valid.{IsValid}
use project.Mips.OpCode.{
  OpCode, op_add, op_addi, op_addiu, op_addu, op_and, op_andi, op_beq, op_bgez, op_bgezal, op_bgtz,
  op_blez, op_bltz, op_bltzal, op_bne, op_div, op_divu, op_j, op_jal, op_jalr, op_jr, op_lb, op_lbu,
  op_lh, op_lhu, op_lui, op_lw, op_lwl, op_lwr, op_mfhi, op_mflo, op_mthi, op_mtlo, op_mult,
  op_multu, op_nor, op_or, op_ori, op_rfe, op_sb, op_sh, op_sll, op_sllv, op_slt, op_slti, op_sltiu,
  op_sltu, op_sra, op_srav, op_srl, op_srlv, op_sub, op_subu, op_sw, op_swl, op_swr, op_xor,
  op_xori, op_syscall, op_unimp, op_res, special, bcond,
}
use project.Mips.Decode.{Instruction}
use project.Mips.Decoded.{IsExecutable}
use project.Mips.Word.{word, sign_bit, add, has}
use project.Mips.Cpu.{pending, extend_byte, extend_half, merge_lwl, merge_lwr, merge_swl, merge_swr}
use project.Mips.Steps.{
  IsEffect, Keeps-start, reads-IsEffect, delays-IsEffect, writes-IsEffect, computes-IsEffect,
  computes_pair-IsEffect, jumps-IsEffect, link-Keeps, raises-IsEffect, if-IsEffect,
}
use project.Mips.Execute.{divide, load_byte, load_half, load_word, load_part, store_part, execute}

-- The division that the host cannot do.
abbrev pub host_traps : OpCode → ℕ → ℕ → Bool
host_traps op_div s t = s == sign_bit && t == word - 1
host_traps _ s t = false

module _ {m : Machine} (s t : ℕ) (k : IsValid m)
    (h : (s == sign_bit && t == word - 1) ≡ false) where
  divide-IsEffect : Returns (IsEffect m) (divide m s t)
  unfolding divide
  divide-IsEffect = rw h (computes_pair-IsEffect _ _ k)

module _ {m : Machine} (tmp rt : ℕ) where
  load_byte-IsEffect :
      (signed : Bool) → rt < 32 → IsValid m → Returns (IsEffect m) (load_byte m tmp rt signed)
  unfolding load_byte
  load_byte-IsEffect signed h k =
      reads-IsEffect m m tmp 1 _ refl (Keeps-start k)
        (λ last v. delays-IsEffect last rt (extend_byte signed v) h)

  load_half-IsEffect :
      (signed : Bool) → rt < 32 → IsValid m → Returns (IsEffect m) (load_half m tmp rt signed)
  unfolding load_half
  load_half-IsEffect signed h k =
      if-IsEffect (has tmp 0x1) _ _ (raises-IsEffect address_error_exception tmp k) (
        reads-IsEffect m m tmp 2 _ refl (Keeps-start k)
          (λ last v. delays-IsEffect last rt (extend_half signed v) h))

  load_word-IsEffect : rt < 32 → IsValid m → Returns (IsEffect m) (load_word m tmp rt)
  unfolding load_word
  load_word-IsEffect h k =
      if-IsEffect (has tmp 0x3) _ _ (raises-IsEffect address_error_exception tmp k)
        (reads-IsEffect m m tmp 4 _ refl (Keeps-start k) (λ last v. delays-IsEffect last rt v h))

module _ {m : Machine} (merge : ℕ → ℕ → ℕ → ℕ) (tmp : ℕ) where
  load_part-IsEffect :
      (rt : ℕ) → rt < 32 → IsValid m → Returns (IsEffect m) (load_part merge m tmp rt)
  unfolding load_part
  load_part-IsEffect rt h k =
      reads-IsEffect m m (tmp - bit_and tmp 0x3) 4 _ refl (Keeps-start k)
        (λ last v. delays-IsEffect last rt (merge (bit_and tmp 0x3) v (pending last rt)) h)

  store_part-IsEffect : (t : ℕ) → IsValid m → Returns (IsEffect m) (store_part merge m tmp t)
  unfolding store_part
  store_part-IsEffect t k =
      reads-IsEffect m m (tmp - bit_and tmp 0x3) 4 _ refl (Keeps-start k)
        (λ last v. writes-IsEffect m last _ 4 (merge (bit_and tmp 0x3) v t) refl)

pub record Executes (i : Instruction) (c : OpCode) : Type 0 where
  pub rs : i.rs < 32
  pub rt : i.rt < 32
  pub rd : i.rd < 32
  pub executable : IsExecutable c

pub execute-IsEffect :
    (c : OpCode) (i : Instruction) (m : Machine) (s t : ℕ)
    → Executes i c
    → IsValid m
    → host_traps c s t ≡ false
    → Returns (IsEffect m) (execute c i m s t)
unfolding execute
execute-IsEffect op_add i m s t d k h =
    if-IsEffect _ _ _ (raises-IsEffect overflow_exception 0 k)
      (computes-IsEffect i.rd _ (omega (arith, d.rd)) k)
execute-IsEffect op_addi i m s t d k h =
    if-IsEffect _ _ _ (raises-IsEffect overflow_exception 0 k)
      (computes-IsEffect i.rt _ (omega (arith, d.rt)) k)
execute-IsEffect op_addiu i m s t d k h = computes-IsEffect i.rt _ (omega (arith, d.rt)) k
execute-IsEffect op_addu i m s t d k h = computes-IsEffect i.rd _ (omega (arith, d.rd)) k
execute-IsEffect op_and i m s t d k h = computes-IsEffect i.rd _ (omega (arith, d.rd)) k
execute-IsEffect op_andi i m s t d k h = computes-IsEffect i.rt _ (omega (arith, d.rt)) k
execute-IsEffect op_beq i m s t d k h = jumps-IsEffect _ (Keeps-start k)
execute-IsEffect op_bgez i m s t d k h = jumps-IsEffect _ (Keeps-start k)
execute-IsEffect op_bgezal i m s t d k h = jumps-IsEffect _ (link-Keeps 31 (omega arith) k)
execute-IsEffect op_bgtz i m s t d k h = jumps-IsEffect _ (Keeps-start k)
execute-IsEffect op_blez i m s t d k h = jumps-IsEffect _ (Keeps-start k)
execute-IsEffect op_bltz i m s t d k h = jumps-IsEffect _ (Keeps-start k)
execute-IsEffect op_bltzal i m s t d k h = jumps-IsEffect _ (link-Keeps 31 (omega arith) k)
execute-IsEffect op_bne i m s t d k h = jumps-IsEffect _ (Keeps-start k)
execute-IsEffect op_div i m s t d k h =
    if-IsEffect (t == 0) _ _ (computes_pair-IsEffect 0 0 k) (divide-IsEffect s t k h)
execute-IsEffect op_divu i m s t d k h =
    if-IsEffect (t == 0) _ _ (computes_pair-IsEffect 0 0 k) (computes_pair-IsEffect _ _ k)
execute-IsEffect op_j i m s t d k h = jumps-IsEffect _ (Keeps-start k)
execute-IsEffect op_jal i m s t d k h = jumps-IsEffect _ (link-Keeps 31 (omega arith) k)
execute-IsEffect op_jalr i m s t d k h = jumps-IsEffect _ (link-Keeps i.rd d.rd k)
execute-IsEffect op_jr i m s t d k h = jumps-IsEffect _ (Keeps-start k)
execute-IsEffect op_lb i m s t d k h = load_byte-IsEffect (add s i.extra) i.rt true d.rt k
execute-IsEffect op_lbu i m s t d k h = load_byte-IsEffect (add s i.extra) i.rt false d.rt k
execute-IsEffect op_lh i m s t d k h = load_half-IsEffect (add s i.extra) i.rt true d.rt k
execute-IsEffect op_lhu i m s t d k h = load_half-IsEffect (add s i.extra) i.rt false d.rt k
execute-IsEffect op_lui i m s t d k h = computes-IsEffect i.rt _ (omega (arith, d.rt)) k
execute-IsEffect op_lw i m s t d k h = load_word-IsEffect (add s i.extra) i.rt d.rt k
execute-IsEffect op_lwl i m s t d k h = load_part-IsEffect merge_lwl (add s i.extra) i.rt d.rt k
execute-IsEffect op_lwr i m s t d k h = load_part-IsEffect merge_lwr (add s i.extra) i.rt d.rt k
execute-IsEffect op_mfhi i m s t d k h = computes-IsEffect i.rd _ (omega (arith, d.rd)) k
execute-IsEffect op_mflo i m s t d k h = computes-IsEffect i.rd _ (omega (arith, d.rd)) k
execute-IsEffect op_mthi i m s t d k h = computes-IsEffect _ _ (omega arith) k
execute-IsEffect op_mtlo i m s t d k h = computes-IsEffect _ _ (omega arith) k
execute-IsEffect op_mult i m s t d k h = computes_pair-IsEffect _ _ k
execute-IsEffect op_multu i m s t d k h = computes_pair-IsEffect _ _ k
execute-IsEffect op_nor i m s t d k h = computes-IsEffect i.rd _ (omega (arith, d.rd)) k
execute-IsEffect op_or i m s t d k h = computes-IsEffect i.rd _ (omega (arith, d.rd)) k
execute-IsEffect op_ori i m s t d k h = computes-IsEffect i.rt _ (omega (arith, d.rt)) k
execute-IsEffect op_rfe i m s t d k h = absurd d.executable
execute-IsEffect op_sb i m s t d k h = writes-IsEffect m m _ 1 t refl (Keeps-start k)
execute-IsEffect op_sh i m s t d k h = writes-IsEffect m m _ 2 t refl (Keeps-start k)
execute-IsEffect op_sll i m s t d k h = computes-IsEffect i.rd _ (omega (arith, d.rd)) k
execute-IsEffect op_sllv i m s t d k h = computes-IsEffect i.rd _ (omega (arith, d.rd)) k
execute-IsEffect op_slt i m s t d k h = computes-IsEffect i.rd _ (omega (arith, d.rd)) k
execute-IsEffect op_slti i m s t d k h = computes-IsEffect i.rt _ (omega (arith, d.rt)) k
execute-IsEffect op_sltiu i m s t d k h = computes-IsEffect i.rt _ (omega (arith, d.rt)) k
execute-IsEffect op_sltu i m s t d k h = computes-IsEffect i.rd _ (omega (arith, d.rd)) k
execute-IsEffect op_sra i m s t d k h = computes-IsEffect i.rd _ (omega (arith, d.rd)) k
execute-IsEffect op_srav i m s t d k h = computes-IsEffect i.rd _ (omega (arith, d.rd)) k
execute-IsEffect op_srl i m s t d k h = computes-IsEffect i.rd _ (omega (arith, d.rd)) k
execute-IsEffect op_srlv i m s t d k h = computes-IsEffect i.rd _ (omega (arith, d.rd)) k
execute-IsEffect op_sub i m s t d k h =
    if-IsEffect _ _ _ (raises-IsEffect overflow_exception 0 k)
      (computes-IsEffect i.rd _ (omega (arith, d.rd)) k)
execute-IsEffect op_subu i m s t d k h = computes-IsEffect i.rd _ (omega (arith, d.rd)) k
execute-IsEffect op_sw i m s t d k h = writes-IsEffect m m _ 4 t refl (Keeps-start k)
execute-IsEffect op_swl i m s t d k h = store_part-IsEffect merge_swl (add s i.extra) t k
execute-IsEffect op_swr i m s t d k h = store_part-IsEffect merge_swr (add s i.extra) t k
execute-IsEffect op_xor i m s t d k h = computes-IsEffect i.rd _ (omega (arith, d.rd)) k
execute-IsEffect op_xori i m s t d k h = computes-IsEffect i.rt _ (omega (arith, d.rt)) k
execute-IsEffect op_syscall i m s t d k h = raises-IsEffect _ 0 k
execute-IsEffect op_unimp i m s t d k h = raises-IsEffect _ 0 k
execute-IsEffect op_res i m s t d k h = raises-IsEffect _ 0 k
execute-IsEffect special i m s t d k h = absurd d.executable
execute-IsEffect bcond i m s t d k h = absurd d.executable
