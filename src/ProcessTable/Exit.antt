-- ===== src/ProcessTable/Exit.antt =====
-- `ExitUpdate` of a process that nobody has joined yet.
use project.Prelude.{
  ℕ, ◌+◌, ◌-◌, ◌<◌, ◌≡◌, ◌≢◌, refl, ◌∙◌, ap, false, [], ◌∷◌, ◌++◌, none, some, arith, ok, ◌==◌,
  ◌==ℤ◌, length, pos, ℤ, get_elem?,
}
use project.Semaphore.{Semaphore, p, v, takes, sleeps}
use project.ProcessTable.{ProcessTable, Pcb, Caller, put, get_current_thread_id}
use project.ProcessTable.Wait.{exit_update, exit_as, exit_wait, lingers}

-- The process after its exit, while it waits for the parent.
abbrev pub exited : Pcb → ℤ → ℕ → Pcb
exited c code thread = record c {
  exitcode = code;
  joinsem = record { value = c.joinsem.value + 1; queue = [] };
  exitsem = record { value = 0; queue = c.exitsem.queue ++ (thread ∷ []) };
}

-- The process in a slot.
abbrev pub Holds : ProcessTable → ℕ → Pcb → Type 0
Holds t i c = (i < length t.pcb) × (get_elem? t.pcb i ≡ some (some c))

v_empty : (s : Semaphore) → s.queue ≡ [] → v s ≡ (none, record { value = s.value + 1; queue = [] })
unfolding v
v_empty s e = rw e refl

p_locked :
    (s : Semaphore) (thread : ℕ)
    → s.value ≡ 0
    → p s thread ≡ sleeps (record { value = 0; queue = s.queue ++ (thread ∷ []) })
unfolding p
p_locked s thread e = rw e refl

pub p_free :
    (s : Semaphore) (thread n : ℕ)
    → s.value ≡ n + 1
    → p s thread ≡ takes (record { value = n; queue = s.queue })
unfolding p
p_free s thread n e =
    let more : (n + 1 == 0) ≡ false = ground arith in
    let less : n + 1 - 1 ≡ n = omega arith in rw (e, more, less) refl

exit_wait_lem :
    (t : ProcessTable) (k thread : ℕ) (c : Pcb) (code : ℤ)
    → c.exitsem.value ≡ 0
    → exit_wait t thread code (pos k) c (none, record { value = c.joinsem.value + 1; queue = [] })
      ≡ ok (lingers (pos k) none (put t k (some (exited c code thread))))
exit_wait_lem t k thread c code locked = rw (p_locked c.exitsem thread locked, exit_wait) refl

exit_as_lem :
    (t : ProcessTable) (k thread : ℕ) (c : Pcb) (code : ℤ)
    → c.joinsem.queue ≡ []
    → c.exitsem.value ≡ 0
    → exit_as t thread code (pos k) c
      ≡ ok (lingers (pos k) none (put t k (some (exited c code thread))))
exit_as_lem t k thread c code empty locked =
    ap (exit_wait t thread code (pos k) c) (v_empty c.joinsem empty)
    ∙ exit_wait_lem t k thread c code locked

pub exit_lingers :
    (t : ProcessTable) (child : Caller) (k : ℕ) (c : Pcb) (code : ℤ)
    → get_current_thread_id t child ≡ ok (pos k)
    → k ≢ 0
    → Holds t k c
    → c.joinsem.queue ≡ []
    → c.exitsem.value ≡ 0
    → exit_update t child code
      ≡ ok (lingers (pos k) none (put t k (some (exited c code child.thread))))
unfolding exit_update
exit_lingers t child k c code current no_main at empty locked =
    let other : (pos k ==ℤ pos 0) ≡ false = ground arith in
    rw (current, other, at.1) (exit_as_lem t k child.thread c code empty locked)
