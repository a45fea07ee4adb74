-- ===== src/Exception/Handled.antt =====
-- What the handler does with a system call, and how it returns to the user program.
use project.Prelude.{
  ℕ, ◌+◌, ◌%◌, ◌^◌, ◌≤◌, ◌≡◌, ◌≢◌, refl, sym, ◌∙◌, ap, Bool, List, ok, ℤ, arith, ◌⊎◌, length-set,
  get_or-set_self, get_or-set_ne,
}
use project.Host.{Host}
use project.Machine.{Machine, syscall_exception, pc_reg, next_pc_reg, prev_pc_reg}
use project.Machine.Valid
use project.UserMemory.{increase_pc}
use project.UserMemory.Counter.{reg, with_reg, read_register-ok, increase_pc-Advances}
use project.Syscall.{Kernel}
use project.Syscall.Slots.{IsGood}
use project.Syscall.Session.{FileCall, run}
use project.ProcessTable.{Making, Caller}
use project.Exception.Asks.{Asks}
use project.Exception.{
  unexpected, request, int_bits, State, Handling, resumed, serve, exception_handler,
}

-- How a machine is after the handler has answered: the result is in register 2 and the counters have
-- gone on by one instruction; no other register has changed, nor has memory.
pub record Answered (m : Machine) (result : ℤ) (after : Machine) : Type 0 where
  pub in_register : reg after 2 ≡ int_bits result
  pub prev : reg after prev_pc_reg ≡ reg m pc_reg
  pub counter : reg after pc_reg ≡ reg m next_pc_reg
  pub next : reg after next_pc_reg ≡ (reg m next_pc_reg + 4) % 2 ^ 32
  pub others :
      (i : ℕ) → i ≢ 2 → i ≢ prev_pc_reg → i ≢ pc_reg → i ≢ next_pc_reg → reg after i ≡ reg m i
  pub memory : after.main_memory ≡ m.main_memory
  pub valid : Valid.IsValid after

pub answered :
    (m : Machine) (result : ℤ)
    → Valid.IsValid m
    → (after : Machine) × (increase_pc (with_reg m 2 (int_bits result)) ≡ ok after)
      × Answered m result after
answered m result v =
    let m2 = with_reg m 2 (int_bits result) in
    let v2 : Valid.IsValid m2 = record {
      memory = v.memory;
      registers = length-set m.registers 2 (int_bits result) ∙ v.registers;
      one_table = v.one_table;
    } in
    let a = increase_pc-Advances m2 v2 in
    let kept = λ (i : ℕ) (n : 2 ≢ i). get_or-set_ne m.registers 2 i (int_bits result) 0 n in
    (
      a.after,
      a.returns,
      record {
        in_register =
            a.others 2 (omega arith) (omega arith) (omega arith)
            ∙ get_or-set_self m.registers 2 (int_bits result) 0 (omega (arith, v.registers));
        prev = a.prev ∙ kept pc_reg (omega arith);
        counter = a.counter ∙ kept next_pc_reg (omega arith);
        next = a.next ∙ ap (λ (n : ℕ). (n + 4) % 2 ^ 32) (kept next_pc_reg (omega arith));
        others = λ i n p c x. a.others i p c x ∙ kept i (λ e. n (sym e));
        memory = a.memory;
        valid = a.valid;
      },
    )

unexpected_request :
    (type a b c : ℕ) → ((11 ≤ type) × (type ≤ 15)) ⊎ (24 ≤ type) → request type a b c ≡ unexpected
unfolding request
unexpected_request type a b c h = ground arith

module _ (host : Host) where
  -- The handler has made a call on files, whose result it has answered.
  pub record Resumes (c : FileCall) (s : State host) (h : Handling host) : Type 0 where
    pub result : ℤ
    pub left : Kernel host
    pub called : run host c s.kernel ≡ ok (result, left)
    pub after : State host
    pub returns : h ≡ resumed after
    pub answered : Answered left.machine result after.kernel.machine
    pub good : IsGood host after.kernel
    pub same_files : after.kernel.files ≡ left.files
    pub same_semaphores : after.semaphores ≡ s.semaphores
    pub same_processes : after.processes ≡ s.processes
    pub none_woken : after.woken ≡ s.woken

  -- The handler takes its request from registers 2, 4, 5 and 6.
  pub arguments :
      (opens : List ℕ → Bool) (made : Making) (caller : Caller) (s : State host)
      → Valid.IsValid s.kernel.machine
      → exception_handler host opens made caller s syscall_exception
        ≡ serve host opens made caller s (
            request
              (reg s.kernel.machine 2)
              (reg s.kernel.machine 4)
              (reg s.kernel.machine 5)
              (reg s.kernel.machine 6))
  unfolding exception_handler
  arguments opens made caller s v =
      let m = s.kernel.machine in
      rw
        (
          read_register-ok m 2 v.registers (omega arith),
          read_register-ok m 4 v.registers (omega arith),
          read_register-ok m 5 v.registers (omega arith),
          read_register-ok m 6 v.registers (omega arith),
        )
        refl

  -- A system call whose number in register 2 the handler has no case for: it returns with nothing
  -- changed, the counters included.
  pub unexpected_call :
      (opens : List ℕ → Bool) (made : Making) (caller : Caller) (s : State host)
      → Valid.IsValid s.kernel.machine
      → ((11 ≤ reg s.kernel.machine 2) × (reg s.kernel.machine 2 ≤ 15))
        ⊎ (24 ≤ reg s.kernel.machine 2)
      → exception_handler host opens made caller s syscall_exception ≡ ok (resumed s)
  unexpected_call opens made caller s v h =
      let m = s.kernel.machine in
      rw
        (
          arguments opens made caller s v,
          unexpected_request (reg m 2) (reg m 4) (reg m 5) (reg m 6) h,
        )
        refl
