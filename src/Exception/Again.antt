-- ===== src/Exception/Again.antt =====
-- A system call that the handler does not know is made again and again.
use project.Prelude.{
  ℕ, zero, suc, ◌≤◌, ◌≡◌, refl, sym, ap, Bool, List, [], ◌∷◌, ok, ◌⊎◌, get_or, set,
}
use project.Host.{Host}
use project.Machine.{Machine, syscall_exception, value, read_mem, pc_reg}
use project.Machine.Valid
use project.Mips.OpCode.{op_syscall}
use project.Mips.Decode.{decode}
use project.Mips.Cpu.{reg, put, load_reg, load_value_reg, bad_vaddr_reg}
use project.Mips.Execute.{
  one_instruction, run, execute, finish, raise_exception, delayed_load, trapped,
}
use project.ProcessTable.{Making, Caller}
use project.Exception.{State, resumed, exception_handler}
use project.Exception.Handled.{unexpected_call}

set_same : (xs : List ℕ) (i v : ℕ) → get_or xs i v ≡ v → set xs i v ≡ xs
set_same [] i v e = refl
set_same (x ∷ xs) zero v e = ap (λ y. y ∷ xs) (sym e)
set_same (x ∷ xs) (suc i) v e = ap (λ ys. x ∷ ys) (set_same xs i v e)

-- A register that is 0 already.
put_zero : (m : Machine) (i : ℕ) → reg m i ≡ 0 → put m i 0 ≡ m
unfolding put
put_zero m i e = ap (λ (rs : List ℕ). record m { registers = rs }) (set_same m.registers i 0 e)

-- An exception has left the machine so: no load is under way, and R0 and BadVAddrReg are 0.
pub record IsSettled (m : Machine) : Type 0 where
  pub zero_reg : reg m 0 ≡ 0
  pub no_target : reg m load_reg ≡ 0
  pub no_value : reg m load_value_reg ≡ 0
  pub no_address : reg m bad_vaddr_reg ≡ 0

delayed_load_nothing : (m : Machine) → IsSettled m → delayed_load m 0 0 ≡ ok m
unfolding delayed_load
delayed_load_nothing m s =
    rw
      (
        s.no_target,
        s.no_value,
        put_zero m 0 s.zero_reg,
        put_zero m load_reg s.no_target,
        put_zero m load_value_reg s.no_value,
        put_zero m 0 s.zero_reg,
      )
      refl

syscall_again :
    (m : Machine) (raw : ℕ)
    → IsSettled m
    → read_mem m (reg m pc_reg) 4 ≡ ok (value raw, m)
    → (decode raw).op_code ≡ op_syscall
    → one_instruction m ≡ ok (trapped syscall_exception m)
unfolding one_instruction run execute finish raise_exception
syscall_again m raw s fetch code =
    rw (fetch, code, put_zero m bad_vaddr_reg s.no_address, delayed_load_nothing m s) refl

-- A user program on a valid machine that an exception has left before a SYSCALL instruction, whose fetch
-- changes nothing any more, with a number in register 2 from 11 to 15 or of at least 24: the
-- instruction raises the exception and leaves the machine as it is, and the handler returns to the
-- program and leaves the whole state as it is, so that the program never gets further.
pub unexpected_call_again :
    (host : Host) (opens : List ℕ → Bool) (made : Making) (caller : Caller) (s : State host)
    (raw : ℕ)
    → Valid.IsValid s.kernel.machine
    → IsSettled s.kernel.machine
    → read_mem s.kernel.machine (reg s.kernel.machine pc_reg) 4 ≡ ok (value raw, s.kernel.machine)
    → (decode raw).op_code ≡ op_syscall
    → ((11 ≤ reg s.kernel.machine 2) × (reg s.kernel.machine 2 ≤ 15))
      ⊎ (24 ≤ reg s.kernel.machine 2)
    → (one_instruction s.kernel.machine ≡ ok (trapped syscall_exception s.kernel.machine))
      × (exception_handler host opens made caller s syscall_exception ≡ ok (resumed s))
unexpected_call_again host opens made caller s raw v settled fetch code h = (
  syscall_again s.kernel.machine raw settled fetch code,
  unexpected_call host opens made caller s v h,
)
