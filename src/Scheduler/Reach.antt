-- ===== src/Scheduler/Reach.antt =====
-- A kernel from its start on: threads/kernel.cc makes the main thread.
use project.Prelude.{
  ℕ, ◌≡◌, refl, subst, true, List, none, some, ◌==◌, if◌then◌else◌, inl, inr, Bool-cases, ok,
  Returns,
}
use project.LinkedList.{new_list, is_in}
use project.Interrupt.{int_off}
use project.Scheduler.{Thread, running, new_thread}
use project.Scheduler.Actions.{System, awake, Action, perform}
use project.Scheduler.Safe.{IsValid, Allowed}
use project.Scheduler.Perform.{perform-IsValid}

-- The kernel starts with the main thread, which runs.
abbrev pub main_thread : List ℕ → Thread
main_thread memory = record (new_thread memory) { status = running; begun = true }

abbrev pub kernel_start : List ℕ → List ℕ → System
kernel_start memory registers = awake (record {
  threads = λ n. if n == 0 then some (main_thread memory) else none;
  ready_list = new_list;
  to_be_destroyed = none;
  current = 0;
  level = int_off;
  registers = registers;
})

pub data Reachable (memory registers : List ℕ) : System → Type 0 where
  start : Reachable memory registers (kernel_start memory registers)
  next :
      (c d : System) (a : Action)
      → Reachable memory registers c
      → Allowed c a
      → perform c a ≡ ok d
      → Reachable memory registers d

kernel_start-IsValid : (memory registers : List ℕ) → IsValid (kernel_start memory registers)
unfolding is_in
kernel_start-IsValid memory registers = record {
  sound = record {
    list = record { count = refl; distinct = tt };
    listed = λ m. elim (Bool-cases (m == 0)) [ inl e ↦ rw e refl | inr e ↦ rw e refl ];
    intact = λ m. elim (Bool-cases (m == 0)) [ inl e ↦ rw e (λ w h. cc) | inr e ↦ rw e tt ];
  };
  no_carcass = refl;
  thread = main_thread memory;
  here = refl;
  mode = refl;
  only = λ m e. rw e refl;
}

Reachable-IsValid :
    (memory registers : List ℕ) (c : System) → Reachable memory registers c → IsValid c
Reachable-IsValid memory registers c start = kernel_start-IsValid memory registers
Reachable-IsValid memory registers d (next c d' a r h e) =
    let s = perform-IsValid c a (Reachable-IsValid memory registers c r) h in
    let same : s.out ≡ d = (let p = s.is_out in cc) in subst IsValid same s.holds

-- Whatever the threads of the kernel have done since its start, what one of them does next, where it
-- may do it, passes every assertion of the scheduler and leaves a valid system: the ready list has
-- the threads that are ready, each once, no other thread than the current one runs, and no finished
-- thread is left over.
pub actions-IsValid :
    (memory registers : List ℕ) (c : System) (a : Action)
    → Reachable memory registers c
    → Allowed c a
    → IsValid c × Returns IsValid (perform c a)
actions-IsValid memory registers c a r h =
    let v = Reachable-IsValid memory registers c r in (v, perform-IsValid c a v h)
