-- ===== src/Exception/Tests.antt =====
-- The theorems about the handler, on the machine of UserMemory/Sample, the host of FileTable/Sample
-- and the processes of ProcessTable/Sample.
use project.Prelude.{
  false, ℕ, ◌≡◌, refl, arith, [], ◌∷◌, none, ok, Returns, replicate, ◌-◌, length-replicate, some,
  inr, true,
}
use project.FileTable.{new_table}
use project.FileTable.Sample.{sample_host}
use project.UserMemory.Sample.{sample, sample-IsValid}
use project.UserMemory.Counter.{with_reg}
use project.Machine.{
  Machine, TranslationEntry, memory_size, value, read_mem, translate, syscall_exception,
}
use project.Machine.Bytes.{load}
use project.Mips.OpCode.{op_syscall}
use project.Mips.Decode.{decode}
use project.Mips.Execute.{one_instruction, trapped}
use project.Machine.Valid.{IsValid}
use project.Mips.Word.{to_int}
use project.SemaphoreTable.{SemaphoreTable}
use project.ProcessTable.{Making, ProcessTable, main_pcb, main_name}
use project.ProcessTable.Sample.{
  two_processes, child_pcb, main_caller, child_caller, after_exit, child_is_current,
  parent_is_current, opens_all,
}
use project.Exception.Asks.{Asks}
use project.Exception.{resumed, State, exception_handler, sleeping}
use project.Exception.Again.{unexpected_call_again}
use project.Exception.Joined.{Gives, exit_code-Gives}

abbrev no_memory : Making
no_memory = record { thread = none; block = λ n. n }

-- The sample machine with a call of this number and this first and second argument.
abbrev calling : ℕ → ℕ → ℕ → Machine
calling type a b = with_reg (with_reg (with_reg sample 2 type) 4 a) 5 b

calling-IsValid : (type a b : ℕ) → IsValid (calling type a b)
calling-IsValid type a b = record {
  memory = sample-IsValid.memory;
  registers = refl;
  one_table = sample-IsValid.one_table;
}

abbrev no_semaphores : SemaphoreTable
no_semaphores = record {
  bm = record { num_bits = 10; num_words = 1; map = 0 ∷ [] };
  sem_tab = replicate 10 none;
}

abbrev state : ℕ → ℕ → ℕ → ProcessTable → State sample_host
state type a b t = record {
  kernel = record { machine = calling type a b; files = new_table; world = 0 };
  semaphores = no_semaphores;
  processes = t;
  woken = [];
}

exit_code-Gives_example :
    (exception_handler sample_host opens_all no_memory child_caller
        (state 1 42 0 two_processes)
        syscall_exception
      ≡ ok (sleeping (state 1 42 0 after_exit)))
    × Returns (Gives sample_host (calling 3 1 0) (to_int 42)) (
        exception_handler sample_host opens_all no_memory main_caller
          (state 3 1 0 after_exit)
          syscall_exception)
exit_code-Gives_example =
    exit_code-Gives sample_host opens_all no_memory child_caller main_caller
      (state 1 42 0 two_processes) (state 3 1 0 after_exit) 0 1 (main_pcb main_name 4) child_pcb
      (calling-IsValid 1 42 0) (calling-IsValid 3 1 0) refl refl refl child_is_current (omega arith)
      (omega arith) (omega arith) (omega arith, refl) (omega arith, refl) refl refl refl refl
      parent_is_current

-- A frame that starts with SYSCALL.
abbrev used_page : TranslationEntry
used_page = record {
  virtual_page = 0;
  physical_page = 0;
  valid = true;
  read_only = false;
  used = true;
  dirty = false;
}

abbrev at_syscall : Machine
at_syscall = record {
  main_memory = 12 ∷ 0 ∷ 0 ∷ 0 ∷ replicate (memory_size - 4) 0;
  tlb = none;
  page_table = some (used_page ∷ []);
  page_table_size = 1;
  registers = 0 ∷ 0 ∷ 42 ∷ replicate 37 0;
}

at_syscall-IsValid : IsValid at_syscall
at_syscall-IsValid = record {
  memory = omega (arith, length-replicate {A = ℕ} (memory_size - 4) 0);
  registers = refl;
  one_table = omega arith;
}

fetches : read_mem at_syscall 0 4 ≡ ok (value 12, at_syscall)
unfolding read_mem translate load project.Machine.use_entry
fetches = refl

decodes : (decode 12).op_code ≡ op_syscall
unfolding decode
decodes = refl

abbrev unknown_call : State sample_host
unknown_call = record (state 42 0 0 two_processes) {
  kernel = record { machine = at_syscall; files = new_table; world = 0 };
}

unexpected_call_again_example :
    (one_instruction at_syscall ≡ ok (trapped syscall_exception at_syscall))
    × (exception_handler sample_host opens_all no_memory main_caller unknown_call syscall_exception
        ≡ ok (resumed unknown_call))
unexpected_call_again_example =
    unexpected_call_again sample_host opens_all no_memory main_caller unknown_call 12
      at_syscall-IsValid
      (record { zero_reg = refl; no_target = refl; no_value = refl; no_address = refl }) fetches
      decodes (inr (omega arith))
