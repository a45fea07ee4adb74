-- ===== src/Mips/Execute.antt =====
-- `Machine::OneInstruction` and `DelayedLoad` of machine/mipssim.cc, and `Machine::RaiseException`
-- of machine/machine.cc up to the call of `ExceptionHandler`.
use project.Prelude.{
  ℕ, ◌-◌, ◌/◌, ◌%◌, Bool, true, false, not, ◌&&◌, Exec, ok, aborted, undefined, ◌>>=◌, ltb, leb,
  ◌==◌, if◌then◌else◌, bit_and, bit_or, bit_xor,
}
use project.Machine.{
  Machine, ExceptionType, Access, value, raised, read_mem, num_total_regs, address_error_exception,
  syscall_exception, illegal_instr_exception,
}
use project.Mips.OpCode.{
  OpCode, op_add, op_addi, op_addiu, op_addu, op_and, op_andi, op_beq, op_bgez, op_bgezal, op_bgtz,
  op_blez, op_bltz, op_bltzal, op_bne, op_div, op_divu, op_j, op_jal, op_jalr, op_jr, op_lb, op_lbu,
  op_lh, op_lhu, op_lui, op_lw, op_lwl, op_lwr, op_mfhi, op_mflo, op_mthi, op_mtlo, op_mult,
  op_multu, op_nor, op_or, op_ori, op_rfe, op_sb, op_sh, op_sll, op_sllv, op_slt, op_slti, op_sltiu,
  op_sltu, op_sra, op_srav, op_srl, op_srlv, op_sub, op_subu, op_sw, op_swl, op_swr, op_xor,
  op_xori, op_syscall, op_unimp, op_res, special, bcond,
}
use project.Mips.Decode.{Instruction, decode}
use project.Mips.Word.{
  word, sign_bit, add, sub, neg, complement, has, less, shift_left, shift_right,
}
use project.Mips.Mult.{mult, differ}
use project.Mips.Cpu.{
  computes, computes_pair, branches, jumps, link, reads, writes, delays, reg, put, pc_after,
  index_to_addr, extend_byte, extend_half, pending, merge_lwl, merge_lwr, merge_swl, merge_swr,
  overflows, Effect, proceeds, raises, r31, hi_reg, lo_reg, load_reg, load_value_reg, bad_vaddr_reg,
}
use project.Machine.{pc_reg, next_pc_reg, prev_pc_reg}

-- `(pcAfter & 0xf0000000) | IndexToAddr(extra)`
abbrev pub jump_target : Machine → ℕ → ℕ
jump_target m extra = bit_or (bit_and (pc_after m) 0xf0000000) (index_to_addr extra)

-- The quotient and the remainder of `int` values, rounded to zero. C leaves the one quotient that
-- does not fit undefined.
unfoldable pub divide : Machine → ℕ → ℕ → Exec Effect
divide m s t =
    let a = if leb sign_bit s then neg s else s in
    let b = if leb sign_bit t then neg t else t in
    let q = if differ (leb sign_bit s) (leb sign_bit t) then neg (a / b) else a / b in
    let r = if leb sign_bit s then neg (a % b) else a % b in
    if s == sign_bit && t == word - 1 then undefined else computes_pair m q r

unfoldable pub load_byte : Machine → ℕ → ℕ → Bool → Exec Effect
load_byte m tmp rt signed = reads m tmp 1 (λ m' v. delays m' rt (extend_byte signed v))

unfoldable pub load_half : Machine → ℕ → ℕ → Bool → Exec Effect
load_half m tmp rt signed =
    if has tmp 0x1
    then ok (raises m address_error_exception tmp)
    else reads m tmp 2 (λ m' v. delays m' rt (extend_half signed v))

unfoldable pub load_word : Machine → ℕ → ℕ → Exec Effect
load_word m tmp rt =
    if has tmp 0x3
    then ok (raises m address_error_exception tmp)
    else reads m tmp 4 (λ m' v. delays m' rt v)

-- LWL and LWR, by the way they put the bytes together.
unfoldable pub load_part : (ℕ → ℕ → ℕ → ℕ) → Machine → ℕ → ℕ → Exec Effect
load_part merge m tmp rt =
    let byte = bit_and tmp 0x3 in
    reads m (tmp - byte) 4 (λ m' v. delays m' rt (merge byte v (pending m' rt)))

-- SWL and SWR.
unfoldable pub store_part : (ℕ → ℕ → ℕ → ℕ) → Machine → ℕ → ℕ → Exec Effect
store_part merge m tmp t =
    let byte = bit_and tmp 0x3 in
    reads m (tmp - byte) 4 (λ m' v. writes m' (tmp - byte) 4 (merge byte v t))

-- The `switch`, with the values of the registers rs and rt.
unfoldable pub execute : OpCode → Instruction → Machine → ℕ → ℕ → Exec Effect
execute op_add i m s t =
    let sum = add s t in
    if not (has (bit_xor s t) sign_bit) && has (bit_xor s sum) sign_bit
    then overflows m
    else computes m i.rd sum
execute op_addi i m s t =
    let sum = add s i.extra in
    if not (has (bit_xor s i.extra) sign_bit) && has (bit_xor i.extra sum) sign_bit
    then overflows m
    else computes m i.rt sum
execute op_addiu i m s t = computes m i.rt (add s i.extra)
execute op_addu i m s t = computes m i.rd (add s t)
execute op_and i m s t = computes m i.rd (bit_and s t)
execute op_andi i m s t = computes m i.rt (bit_and s (bit_and i.extra 0xffff))
execute op_beq i m s t = branches m (s == t) i.extra
execute op_bgez i m s t = branches m (not (has s sign_bit)) i.extra
execute op_bgezal i m s t =
    let m' = link m r31 in branches m' (not (has (reg m' i.rs) sign_bit)) i.extra
execute op_bgtz i m s t = branches m (less 0 s) i.extra
execute op_blez i m s t = branches m (not (less 0 s)) i.extra
execute op_bltz i m s t = branches m (has s sign_bit) i.extra
execute op_bltzal i m s t = let m' = link m r31 in branches m' (has (reg m' i.rs) sign_bit) i.extra
execute op_bne i m s t = branches m (not (s == t)) i.extra
execute op_div i m s t = if t == 0 then computes_pair m 0 0 else divide m s t
execute op_divu i m s t = if t == 0 then computes_pair m 0 0 else computes_pair m (s / t) (s % t)
execute op_j i m s t = jumps m (jump_target m i.extra)
execute op_jal i m s t = jumps (link m r31) (jump_target m i.extra)
execute op_jalr i m s t = let m' = link m i.rd in jumps m' (reg m' i.rs)
execute op_jr i m s t = jumps m s
execute op_lb i m s t = load_byte m (add s i.extra) i.rt true
execute op_lbu i m s t = load_byte m (add s i.extra) i.rt false
execute op_lh i m s t = load_half m (add s i.extra) i.rt true
execute op_lhu i m s t = load_half m (add s i.extra) i.rt false
execute op_lui i m s t = computes m i.rt (shift_left i.extra 16)
execute op_lw i m s t = load_word m (add s i.extra) i.rt
execute op_lwl i m s t = load_part merge_lwl m (add s i.extra) i.rt
execute op_lwr i m s t = load_part merge_lwr m (add s i.extra) i.rt
execute op_mfhi i m s t = computes m i.rd (reg m hi_reg)
execute op_mflo i m s t = computes m i.rd (reg m lo_reg)
execute op_mthi i m s t = computes m hi_reg s
execute op_mtlo i m s t = computes m lo_reg s
execute op_mult i m s t = let p = mult s t true in computes_pair m p.lo p.hi
execute op_multu i m s t = let p = mult s t false in computes_pair m p.lo p.hi
execute op_nor i m s t = computes m i.rd (complement (bit_or s t))
execute op_or i m s t = computes m i.rd (bit_or s t)
execute op_ori i m s t = computes m i.rt (bit_or s (bit_and i.extra 0xffff))
execute op_rfe i m s t = aborted
execute op_sb i m s t = writes m (add s i.extra) 1 t
execute op_sh i m s t = writes m (add s i.extra) 2 t
execute op_sll i m s t = computes m i.rd (shift_left t i.extra)
execute op_sllv i m s t = computes m i.rd (shift_left t (bit_and s 0x1f))
execute op_slt i m s t = computes m i.rd (if less s t then 1 else 0)
execute op_slti i m s t = computes m i.rt (if less s i.extra then 1 else 0)
execute op_sltiu i m s t = computes m i.rt (if ltb s i.extra then 1 else 0)
execute op_sltu i m s t = computes m i.rd (if ltb s t then 1 else 0)
execute op_sra i m s t = computes m i.rd (shift_right t i.extra)
execute op_srav i m s t = computes m i.rd (shift_right t (bit_and s 0x1f))
execute op_srl i m s t = computes m i.rd (shift_right t i.extra)
execute op_srlv i m s t = computes m i.rd (shift_right t (bit_and s 0x1f))
execute op_sub i m s t =
    let diff = sub s t in
    if has (bit_xor s t) sign_bit && has (bit_xor s diff) sign_bit
    then overflows m
    else computes m i.rd diff
execute op_subu i m s t = computes m i.rd (sub s t)
execute op_sw i m s t = writes m (add s i.extra) 4 t
execute op_swl i m s t = store_part merge_swl m (add s i.extra) t
execute op_swr i m s t = store_part merge_swr m (add s i.extra) t
execute op_xor i m s t = computes m i.rd (bit_xor s t)
execute op_xori i m s t = computes m i.rt (bit_xor s (bit_and i.extra 0xffff))
execute op_syscall i m s t = ok (raises m syscall_exception 0)
execute op_unimp i m s t = ok (raises m illegal_instr_exception 0)
execute op_res i m s t = ok (raises m illegal_instr_exception 0)
execute special i m s t = aborted
execute bcond i m s t = aborted

-- `registers[registers[LoadReg]]` is outside the array for a LoadReg of 40 or more.
unfoldable pub delayed_load : Machine → ℕ → ℕ → Exec Machine
delayed_load m next_reg next_value =
    if ltb (reg m load_reg) num_total_regs
    then (let m1 = put m (reg m load_reg) (reg m load_value_reg) in
        ok (put (put (put m1 load_reg next_reg) load_value_reg next_value) 0 0))
    else undefined

-- What an instruction comes to: it is done, or the kernel gets an exception.
pub data Outcome : Type 0 where
  completed : Machine → Outcome
  trapped : ExceptionType → Machine → Outcome

unfoldable pub raise_exception : Machine → ExceptionType → ℕ → Exec Outcome
raise_exception m which bad_vaddr =
    delayed_load (put m bad_vaddr_reg bad_vaddr) 0 0 >>= λ m'. ok (trapped which m')

-- The program counters move on.
abbrev pub advance : Machine → ℕ → Machine
advance m pc =
    let m1 = put m prev_pc_reg (reg m pc_reg) in
    let m2 = put m1 pc_reg (reg m1 next_pc_reg) in put m2 next_pc_reg pc

unfoldable pub finish : Effect → Exec Outcome
finish (raises m which bad_vaddr) = raise_exception m which bad_vaddr
finish (proceeds m pc r v) = delayed_load m r v >>= λ m'. ok (completed (advance m' pc))

-- After the fetch.
unfoldable pub run : ℕ → Machine → Exec Outcome
run raw m = let i = decode raw in execute i.op_code i m (reg m i.rs) (reg m i.rt) >>= finish

abbrev pub fetched : ℕ → Access × Machine → Exec Outcome
fetched pc (raised e, m) = raise_exception m e pc
fetched pc (value raw, m) = run raw m

unfoldable pub one_instruction : Machine → Exec Outcome
one_instruction m = read_mem m (reg m pc_reg) 4 >>= fetched (reg m pc_reg)
