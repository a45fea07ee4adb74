-- ===== src/ProcessTable/Sample.antt =====
-- The main process and one child of it.
use project.Prelude.{
  ℕ, ◌≡◌, refl, Bool, true, List, [], ◌∷◌, Option, none, some, pos, ok, replicate,
}
use project.Semaphore.{new_semaphore}
use project.CString.{chars, str_same}
use project.ProcessTable.{
  ProcessTable, Pcb, Caller, main_pcb, main_name, new_pcb, get_current_thread_id, put,
}
use project.ProcessTable.Exit.{exited}

abbrev pub program : List ℕ
program = b'a' ∷ 0 ∷ []

abbrev pub child_pcb : Pcb
child_pcb = record (new_pcb (pos 1)) { parent_id = pos 0; file = some program; thread = some 5 }

abbrev pub no_process : Option Pcb
no_process = none

abbrev pub two_processes : ProcessTable
two_processes = record {
  psize = pos 2;
  bm = record { num_bits = 10; num_words = 1; map = 3 ∷ [] };
  pcb = some (main_pcb main_name 4) ∷ some child_pcb ∷ replicate 8 no_process;
  bmsem = new_semaphore 0;
}

abbrev pub main_caller : Caller
main_caller = record { thread = 4; name = main_name }

abbrev pub child_caller : Caller
child_caller = record { thread = 5; name = program }

pub main_is_current : get_current_thread_id two_processes main_caller ≡ ok (pos 0)
unfolding get_current_thread_id str_same chars
main_is_current = refl

pub child_is_current : get_current_thread_id two_processes child_caller ≡ ok (pos 1)
unfolding get_current_thread_id str_same chars
child_is_current = refl

abbrev pub after_exit : ProcessTable
after_exit = put two_processes 1 (some (exited child_pcb (pos 42) 5))

pub parent_is_current : get_current_thread_id after_exit main_caller ≡ ok (pos 0)
unfolding get_current_thread_id str_same chars
parent_is_current = refl

pub opens_all : List ℕ → Bool
opens_all name = true
