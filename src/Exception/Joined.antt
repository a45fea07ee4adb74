-- ===== src/Exception/Joined.antt =====
-- SC_Exit of a child and SC_Join of its parent.
use project.Prelude.{
  ℕ, ◌≡◌, ◌≢◌, ◌<◌, refl, subst, sym, ap, ◌∙◌, Bool, List, [], Option, none, some, ok, ℤ, pos,
  Returns, arith,
}
use project.Host.{Host}
use project.Machine.{Machine, syscall_exception}
use project.Machine.Valid
use project.Mips.Word.{to_int}
use project.UserMemory.Counter.{reg, write_register-ok}
use project.ProcessTable.{
  Making, ProcessTable, Pcb, Caller, Outcome, returns, put, max_process, get_current_thread_id,
}
use project.ProcessTable.Calls.{sys_join, join_rest, sys_exit, lingering}
use project.ProcessTable.Wait.{join_update, join_finish, join_code, joined, exit_update, Joining}
use project.ProcessTable.Wait
use project.ProcessTable.Exit.{exited, Holds}
use project.ProcessTable.Join.{join_after_exit}
use project.Exception.{
  exit_with, join_with, request, int_bits, State, Handling, resumed, sleeping, wake, with_machine,
  process_answer, exception_handler,
}
use project.Exception.Handled.{Answered, answered, arguments}

-- `SysJoin` returns `code`, whichever thread it wakes.
returns_code :
    (t2 : ProcessTable) (j k : ℕ) (code : ℤ)
    → Returns
        (λ (r : Option ℕ × ProcessTable). join_code r.1 (pos k) ≡ ok code)
        (join_finish t2 (pos j) (pos k))
    → (woken : Option ℕ) × ((t3 : ProcessTable) × (join_rest (pos k) (joined (pos j) t2)
          ≡ ok (returns code woken t3)))
returns_code t2 j k code r = (r.out.0, (r.out.1, rw (r.is_out, r.holds) refl))

module _ (t : ProcessTable) where
  sys_exit_lem :
      (caller : Caller) (status : ℤ) (current : ℤ) (t1 : ProcessTable)
      → exit_update t caller status ≡ ok (Wait.lingers current none t1)
      → sys_exit t caller status ≡ ok (lingering none t1)
  unfolding sys_exit
  sys_exit_lem caller status current t1 e = rw e refl

  sys_join_lem :
      (caller : Caller) (id : ℤ) (joining : Joining) (out : Outcome)
      → join_update t caller id ≡ ok joining
      → join_rest id joining ≡ ok out
      → sys_join t caller id ≡ ok out
  unfolding sys_join
  sys_join_lem caller id joining out e f = rw (e, f) refl

exit_request : (a b c : ℕ) → request 1 a b c ≡ exit_with (to_int a)
unfolding request
exit_request a b c = refl

join_request : (a b c : ℕ) → request 3 a b c ≡ join_with (to_int a)
unfolding request
join_request a b c = refl

module _ (host : Host) where
  -- The handler has resumed the program with `result` as the result of its call.
  pub record Gives (m : Machine) (result : ℤ) (h : Handling host) : Type 0 where
    pub after : State host
    pub resumes : h ≡ resumed after
    pub answered : Answered m result after.kernel.machine

  process_answer-Gives :
      (s : State host) (woken : Option ℕ) (result : ℤ) (t : ProcessTable)
      → Valid.IsValid s.kernel.machine
      → Returns (Gives s.kernel.machine result) (process_answer host s (returns result woken t))
  process_answer-Gives s none result t v =
      let m = s.kernel.machine in
      let (after, runs, a) = answered m result v in
      record {
        out = resumed (with_machine host (record s { processes = t }) after);
        is_out = rw (write_register-ok m 2 (int_bits result) (omega arith), runs) refl;
        holds = record { after = _; resumes = refl; answered = a };
      }
  process_answer-Gives s (some n) result t v =
      let m = s.kernel.machine in
      let (after, runs, a) = answered m result v in
      record {
        out = resumed (with_machine host (wake host (some n) (record s { processes = t })) after);
        is_out = rw (write_register-ok m 2 (int_bits result) (omega arith), runs) refl;
        holds = record { after = _; resumes = refl; answered = a };
      }

  exit_sleeps :
      (opens : List ℕ → Bool) (made : Making) (child : Caller) (s : State host) (t : ProcessTable)
      → Valid.IsValid s.kernel.machine
      → reg s.kernel.machine 2 ≡ 1
      → sys_exit s.processes child (to_int (reg s.kernel.machine 4)) ≡ ok (lingering none t)
      → exception_handler host opens made child s syscall_exception
        ≡ ok (sleeping (record s { processes = t }))
  exit_sleeps opens made child s t v exits e =
      rw
        (
          arguments host opens made child s v,
          exits,
          exit_request (reg s.kernel.machine 4) (reg s.kernel.machine 5) (reg s.kernel.machine 6),
          e,
        )
        refl

  answer_join :
      (opens : List ℕ → Bool) (made : Making) (parent : Caller) (s : State host) (woken : Option ℕ)
      (code : ℤ) (t : ProcessTable)
      → Valid.IsValid s.kernel.machine
      → reg s.kernel.machine 2 ≡ 3
      → sys_join s.processes parent (to_int (reg s.kernel.machine 4)) ≡ ok (returns code woken t)
      → Returns
          (Gives s.kernel.machine code)
          (exception_handler host opens made parent s syscall_exception)
  answer_join opens made parent s woken code t v joins e =
      rw
        (
          arguments host opens made parent s v,
          joins,
          join_request (reg s.kernel.machine 4) (reg s.kernel.machine 5) (reg s.kernel.machine 6),
          e,
        )
        (process_answer-Gives s woken code t v)

  -- A child in slot `k`, which is not the main process, for which nobody waits and whose `exitsem` is
  -- 0, makes SC_Exit: its thread sleeps in the call, and only the table of processes has changed. If
  -- its parent in another slot, which is still found there, then makes SC_Join for `k` with that
  -- table, the handler resumes it with the child's argument of SC_Exit, as an `int`, in register 2.
  pub exit_code-Gives :
      (opens : List ℕ → Bool) (made : Making) (child parent : Caller) (s p : State host) (j k : ℕ)
      (q c : Pcb)
      → Valid.IsValid s.kernel.machine
      → Valid.IsValid p.kernel.machine
      → reg s.kernel.machine 2 ≡ 1
      → reg p.kernel.machine 2 ≡ 3
      → to_int (reg p.kernel.machine 4) ≡ pos k
      → get_current_thread_id s.processes child ≡ ok (pos k)
      → k ≢ 0
      → k < max_process
      → j ≢ k
      → Holds s.processes j q
      → Holds s.processes k c
      → c.parent_id ≡ pos j
      → c.joinsem.queue ≡ []
      → c.exitsem.value ≡ 0
      → p.processes
        ≡ put s.processes k (some (exited c (to_int (reg s.kernel.machine 4)) child.thread))
      → get_current_thread_id p.processes parent ≡ ok (pos j)
      → (exception_handler host opens made child s syscall_exception
          ≡ ok (sleeping (record s { processes = p.processes })))
        × Returns
            (Gives p.kernel.machine (to_int (reg s.kernel.machine 4)))
            (exception_handler host opens made parent p syscall_exception)
  exit_code-Gives opens made child parent s p j k q c v w exits joins of_k is_k no_main h other at_j
        at_k is_child empty locked left found =
      let code = to_int (reg s.kernel.machine 4) in
      let (lingers, (t2, goes_on, finish)) =
        join_after_exit s.processes child parent j k q c code is_k no_main h other at_j at_k
          is_child empty locked
          (subst (λ t. get_current_thread_id t parent ≡ ok (pos j)) left found) in
      let (woken, (t3, rest)) = returns_code t2 j k code finish in
      (
        exit_sleeps opens made child s p.processes v exits (
            sys_exit_lem s.processes child code (pos k) p.processes
              (lingers ∙ ap (λ t. ok (Wait.lingers (pos k) none t)) (sym left))),
        answer_join opens made parent p woken code t3 w joins (
            rw (of_k, left)
              (sys_join_lem _ parent (pos k) (joined (pos j) t2) (returns code woken t3) goes_on
                rest)),
      )
