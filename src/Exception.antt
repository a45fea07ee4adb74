-- ===== src/Exception.antt =====
-- userprog/exception.cc: `ExceptionHandler`, from the registers of the machine to the system call and
-- back. Lengths below 0 are not modelled.
pub mod Asks
pub mod Handled
pub mod Again
pub mod Joined
mod Tests
use project.Prelude.{
  ℕ, zero, none, some, [], ◌∷◌, ◌++◌, ◌+◌, ◌-◌, ◌%◌, ◌^◌, Bool, List, Option, Exec, ok, aborted,
  halted, ◌>>=◌, ◌==◌, if◌then◌else◌, ℤ, pos, negsuc,
}
use project.Host.{Host}
use project.Machine.{
  Machine, ExceptionType, no_exception, syscall_exception, page_fault_exception,
  read_only_exception, bus_error_exception, address_error_exception, overflow_exception,
  illegal_instr_exception, num_exception_types, read_register, write_register,
}
use project.Mips.Word.{to_int}
use project.UserMemory.{increase_pc}
use project.Syscall.{Kernel}
use project.Syscall.Session.{
  FileCall, create, remove, seek, open_file, close, close_socket, read, write, socket_tcp, connect,
  send, receive, run,
}
use project.SemaphoreTable.{SemaphoreTable, Waiting}
use project.SemaphoreTable
use project.SemaphoreTable.Calls.{sys_create_semaphore, sys_wait, sys_signal}
use project.ProcessTable.{Making, ProcessTable, Caller, Outcome, returns, asleep}
use project.ProcessTable.Calls.{sys_exec, sys_join, sys_exit, Exited, goes_on, lingering, ended}

-- The 32 bits of an `int`.
abbrev pub int_bits : ℤ → ℕ
int_bits (pos n) = n % 2 ^ 32
int_bits (negsuc n) = 2 ^ 32 - 1 - n % 2 ^ 32

-- What the number of a call and the registers say is to be done.
pub data Request : Type 0 where
  file_call : FileCall → Request
  negative_length unexpected shut_down : Request
  exit_with join_with : ℤ → Request
  exec_of wait_on signal_to : ℕ → Request
  make_semaphore : ℕ → ℤ → Request

-- A call with a length.
abbrev pub sized : ℤ → (ℕ → FileCall) → Request
sized (pos n) call = file_call (call n)
sized (negsuc n) call = negative_length

-- The calls on files and sockets: SC_Create to SC_Close, SC_SocketTCP to SC_CloseSocket.
abbrev pub file_request : ℕ → ℕ → ℕ → ℕ → Request
file_request type a b c =
    if type == 4
    then file_call (create a)
    else if type == 5
    then file_call (remove a)
    else if type == 6
    then file_call (open_file a (to_int b))
    else if type == 7
    then sized (to_int b) (λ n. read a n (to_int c))
    else if type == 8
    then sized (to_int b) (λ n. write a n (to_int c))
    else if type == 9
    then file_call (seek (to_int a) (to_int b))
    else if type == 10
    then file_call (close (to_int a))
    else if type == 16
    then file_call socket_tcp
    else if type == 17
    then file_call (connect (to_int a) b (to_int c))
    else if type == 18
    then sized (to_int c) (λ n. send (to_int a) b n)
    else if type == 19
    then sized (to_int c) (λ n. receive (to_int a) b n)
    else if type == 20
    then file_call (close_socket (to_int a))
    else unexpected

-- `switch (type)`, on register 2, with registers 4, 5 and 6.
unfoldable pub request : ℕ → ℕ → ℕ → ℕ → Request
request type a b c =
    if type == 0
    then shut_down
    else if type == 1
    then exit_with (to_int a)
    else if type == 2
    then exec_of a
    else if type == 3
    then join_with (to_int a)
    else if type == 21
    then make_semaphore a (to_int b)
    else if type == 22
    then wait_on a
    else if type == 23
    then signal_to a
    else file_request type a b c

module _ (host : Host) where
  pub record State : Type 0 where
    pub kernel : Kernel host
    pub semaphores : SemaphoreTable
    pub processes : ProcessTable
    -- The threads that semaphores have woken, in order.
    pub woken : List ℕ

  -- The handler returns to the user program; the thread sleeps in the call, or ends there.
  pub data Handling : Type 0 where
    resumed sleeping finished : State → Handling
    not_modelled : Handling

  abbrev pub with_machine : State → Machine → State
  with_machine s m = record s { kernel = record s.kernel { machine = m } }

  -- `WriteRegister(2, result); IncreasePC(); return;`
  abbrev pub answer : State → ℤ → Exec Handling
  answer s result = write_register s.kernel.machine 2 (int_bits result) >>= λ m.
      increase_pc m >>= λ m'. ok (resumed (with_machine s m'))

  abbrev pub file_answer : State → ℤ × Kernel host → Exec Handling
  file_answer s (result, k) = answer (record s { kernel = k }) result

  abbrev pub wake : Option ℕ → State → State
  wake none s = s
  wake (some thread) s = record s { woken = s.woken ++ (thread ∷ []) }

  abbrev pub process_answer : State → Outcome → Exec Handling
  process_answer s (returns result woken t) =
      answer (wake woken (record s { processes = t })) result
  process_answer s (asleep t) = ok (sleeping (record s { processes = t }))

  abbrev pub wait_answer : State → Waiting → Exec Handling
  wait_answer s (Waiting.returns result t) = answer (record s { semaphores = t }) result
  wait_answer s (Waiting.asleep t) = ok (sleeping (record s { semaphores = t }))

  abbrev pub exit_answer : State → ℤ → Exited → Exec Handling
  exit_answer s status (goes_on woken t) = answer (wake woken (record s { processes = t })) status
  exit_answer s status (lingering woken t) = ok (sleeping (wake woken (record s { processes = t })))
  exit_answer s status (ended woken t) = ok (finished (wake woken (record s { processes = t })))

  -- SC_Halt calls `SysExit(0)`, which must not return.
  abbrev pub halt_answer : State → Exited → Exec Handling
  halt_answer s (goes_on woken t) = aborted
  halt_answer s (lingering woken t) = ok (sleeping (wake woken (record s { processes = t })))
  halt_answer s (ended woken t) = ok (finished (wake woken (record s { processes = t })))

  -- The calls, where `opens` and `made` are those of `ExecUpdate`. An unexpected number is printed.
  abbrev pub serve : (List ℕ → Bool) → Making → Caller → State → Request → Exec Handling
  serve opens made caller s (file_call c) = run host c s.kernel >>= file_answer s
  serve opens made caller s negative_length = ok not_modelled
  serve opens made caller s unexpected = ok (resumed s)
  serve opens made caller s shut_down = sys_exit s.processes caller (pos 0) >>= halt_answer s
  serve opens made caller s (exit_with status) =
      sys_exit s.processes caller status >>= exit_answer s status
  serve opens made caller s (join_with id) = sys_join s.processes caller id >>= process_answer s
  serve opens made caller s (exec_of addr) =
      sys_exec opens made s.kernel.machine s.processes caller addr >>= λ r.
      process_answer (with_machine s r.0) r.1
  serve opens made caller s (wait_on addr) =
      sys_wait s.kernel.machine s.semaphores caller.thread addr >>= λ r.
      wait_answer (with_machine s r.0) r.1
  serve opens made caller s (signal_to addr) =
      sys_signal s.kernel.machine s.semaphores addr >>= λ r.
      answer (wake r.1.0 (record (with_machine s r.1.1.0) { semaphores = r.1.1.1 })) r.0
  serve opens made caller s (make_semaphore addr (negsuc n)) = ok not_modelled
  serve opens made caller s (make_semaphore addr (pos value)) =
      sys_create_semaphore s.kernel.machine s.semaphores addr value >>= λ r.
      answer (record (with_machine s r.1.0) { semaphores = r.1.1 }) r.0

  abbrev pub handle_syscall : (List ℕ → Bool) → Making → Caller → State → ℕ → Exec Handling
  handle_syscall opens made caller s type = read_register s.kernel.machine 4 >>= λ a.
      read_register s.kernel.machine 5 >>= λ b.
      read_register s.kernel.machine 6 >>= λ c. serve opens made caller s (request type a b c)

  -- `switch (which)`
  abbrev pub handle_type :
      (List ℕ → Bool) → Making → Caller → State → ExceptionType → ℕ → Exec Handling
  handle_type opens made caller s no_exception type = ok (resumed s)
  handle_type opens made caller s page_fault_exception type = halted
  handle_type opens made caller s read_only_exception type = halted
  handle_type opens made caller s bus_error_exception type = halted
  handle_type opens made caller s address_error_exception type = halted
  handle_type opens made caller s overflow_exception type = halted
  handle_type opens made caller s illegal_instr_exception type = halted
  handle_type opens made caller s num_exception_types type = halted
  handle_type opens made caller s syscall_exception type = handle_syscall opens made caller s type

  unfoldable pub exception_handler :
      (List ℕ → Bool) → Making → Caller → State → ExceptionType → Exec Handling
  unfolding request
  exception_handler opens made caller s which =
      read_register s.kernel.machine 2 >>= handle_type opens made caller s which
