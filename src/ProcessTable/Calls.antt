-- ===== src/ProcessTable/Calls.antt =====
-- The system calls on processes of userprog/ksyscall.h.
use project.Prelude.{
  ℕ, Bool, List, Option, none, some, Exec, ok, ◌>>=◌, if◌then◌else◌, ℤ, minus_one,
}
use project.CString.{is_empty}
use project.Machine.{Machine}
use project.UserMemory.{user_to_system}
use project.Syscall.{max_file_length}
use project.ProcessTable.{
  Making, ProcessTable, Caller, Outcome, returns, asleep, Removal, removed, finished, exec_update,
  remove,
}
use project.ProcessTable.Wait.{
  Joining, refused, waits, joined, join_update, join_finish, join_code, Exiting, through, lingers,
  exit_update,
}

pub sys_exec :
    (List ℕ → Bool) → Making → Machine → ProcessTable → Caller → ℕ → Exec (Machine × Outcome)
sys_exec opens made m t caller addr = user_to_system m addr max_file_length >>= λ r.
    if is_empty r.0
    then ok (r.1, returns minus_one none t)
    else (exec_update opens made t caller (some r.0) >>= λ o. ok (r.1, o))

-- The rest of `JoinUpdate`, where it did not have to wait.
abbrev pub join_rest : ℤ → Joining → Exec Outcome
join_rest id (refused t) = ok (returns minus_one none t)
join_rest id (waits current t) = ok (asleep t)
join_rest id (joined current t) =
    join_finish t current id >>= λ r. join_code r.1 id >>= λ code. ok (returns code r.0 r.1)

unfoldable pub sys_join : ProcessTable → Caller → ℤ → Exec Outcome
sys_join t caller id = join_update t caller id >>= join_rest id

-- What `SysExit` comes to, with the thread that `joinsem` wakes: it returns, sleeps until the parent
-- joins, or its thread ends.
pub data Exited : Type 0 where
  goes_on lingering ended : Option ℕ → ProcessTable → Exited

abbrev pub exit_removal : Option ℕ → Removal → Exited
exit_removal woken (removed t) = goes_on woken t
exit_removal woken (finished t) = ended woken t

-- The rest of `ExitUpdate`, where `exitsem` lets it through.
abbrev pub exit_rest : ℕ → Exiting → Exec Exited
exit_rest thread (through current woken t) =
    remove t thread current >>= λ r. ok (exit_removal woken r)
exit_rest thread (lingers current woken t) = ok (lingering woken t)

unfoldable pub sys_exit : ProcessTable → Caller → ℤ → Exec Exited
sys_exit t caller status = exit_update t caller status >>= exit_rest caller.thread
