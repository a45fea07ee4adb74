-- ===== src/UserMemory.antt =====
-- The parts of userprog/ksyscall.h that move data between a user program and the kernel:
-- `User2System`, `System2User`, `IncreasePC`. A fault in user memory raises an exception whose handler
-- calls `SysHalt` (userprog/exception.cc), so it ends in `halted`.
pub mod Byte
pub mod Bounds
pub mod Counter
pub mod Sample
mod Tests
use project.Prelude.{
  ℕ, zero, suc, ◌+◌, ◌%◌, ◌^◌, List, [], ◌∷◌, Exec, ok, undefined, halted, ◌>>=◌, ◌==◌,
  if◌then◌else◌, replicate, leb, int_max,
}
use project.Machine.{
  pc_reg, next_pc_reg, prev_pc_reg, Machine, Access, value, raised, sign_extend, read_mem,
  write_mem, read_register, write_register,
}

abbrev pub settled : Access × Machine → Exec (ℕ × Machine)
settled (value v, m) = ok (v, m)
settled (raised e, m) = halted

-- `virtAddr + 1`, on 32 bits.
abbrev pub next_address : ℕ → ℕ
next_address addr = (addr + 1) % 2 ^ 32

-- The loop of `User2System`, with `left` bytes to go; the buffer was zeroed, and has one byte more.
unfoldable pub copy_string : Machine → ℕ → ℕ → Exec (List ℕ × Machine)
copy_string m addr zero = ok (0 ∷ [], m)
copy_string m addr (suc left) = read_mem m addr 1 >>= settled >>= λ t.
    let rest = copy_string t.1 (next_address addr) left in
    if t.0 == 0
    then ok (replicate (suc (suc left)) 0, t.1)
    else rest >>= λ r. ok (t.0 % 256 ∷ r.0, r.1)

-- `User2System`, where `limit` is not negative: the `int` sum of `new char[limit + 1]` overflows at
-- the greatest limit.
unfoldable pub user_to_system : Machine → ℕ → ℕ → Exec (List ℕ × Machine)
user_to_system m addr limit = if leb int_max limit then undefined else copy_string m addr limit

-- The loop of `System2User`: how many bytes it has copied when it stops, after a zero byte at the
-- latest.
pub system_to_user : Machine → ℕ → ℕ → List ℕ → Exec (ℕ × Machine)
system_to_user m addr zero buffer = ok (0, m)
system_to_user m addr (suc left) [] = undefined
system_to_user m addr (suc left) (b ∷ buffer) =
    write_mem m addr 1 (sign_extend b) >>= settled >>= λ t.
    let rest = system_to_user t.1 (next_address addr) left buffer in
    if b == 0 then ok (1, t.1) else rest >>= λ r. ok (suc r.0, r.1)

pub increase_pc : Machine → Exec Machine
increase_pc m = do
  pc ← read_register m pc_reg
  m₁ ← write_register m prev_pc_reg pc
  next ← read_register m₁ next_pc_reg
  m₂ ← write_register m₁ pc_reg next
  pc' ← read_register m₂ pc_reg
  write_register m₂ next_pc_reg ((pc' + 4) % 2 ^ 32)
