-- ===== src/ProcessTable/Wait.antt =====
-- `PTable::JoinUpdate` and `PTable::ExitUpdate`, split where they wait for a semaphore.
use project.Prelude.{
  ℕ, not, Option, Exec, ok, halted, ◌>>=◌, if◌then◌else◌, ℤ, pos, minus_one, ◌==ℤ◌, ◌+ℤ◌,
}
use project.Semaphore.{Semaphore, takes, sleeps, p, v}
use project.ProcessTable.{
  Caller, Pcb, ProcessTable, get_current_thread_id, is_exist, process, put_process,
}

-- `JoinUpdate`: refused with -1, asleep on `joinsem` of the child, or past it. The number is that of
-- the caller's process.
pub data Joining : Type 0 where
  refused : ProcessTable → Joining
  waits joined : ℤ → ProcessTable → Joining

-- `pcb[id]->JoinWait()`
abbrev pub join_wait : ProcessTable → ℕ → ℤ → ℤ → Pcb → Exec Joining
join_wait t thread current id child = elim (p child.joinsem thread) [
  | sleeps s ↦ ok (waits current (put_process t id (record child { joinsem = s })))
  | takes s ↦ ok (joined current (put_process t id (record child { joinsem = s })))
]

-- `pcb[currentThreadId]->IncNumWait()`, and the wait.
abbrev pub join_child : ProcessTable → ℕ → ℤ → ℤ → Pcb → Exec Joining
join_child t thread current id parent =
    let t1 = put_process t current (record parent { numwait = parent.numwait +ℤ pos 1 }) in
    process t1 id >>= join_wait t1 thread current id

-- `PTable::JoinUpdate` up to the wait for `joinsem`: a refusal, or the caller's process, with one
-- more wait counted, asleep or through.
unfoldable pub join_update : ProcessTable → Caller → ℤ → Exec Joining
join_update t caller id = get_current_thread_id t caller >>= λ current.
    if not (is_exist t id)
    then ok (refused t)
    else if id ==ℤ current
    then ok (refused t)
    else process t id >>= λ child.
        if not (child.parent_id ==ℤ current)
        then ok (refused t)
        else process t current >>= join_child t caller.thread current id

abbrev pub exit_release : ProcessTable → ℤ → Pcb → Exec (Option ℕ × ProcessTable)
exit_release t id child =
    let (woken, s) = v child.exitsem in ok (woken, put_process t id (record child { exitsem = s }))

abbrev pub end_wait : ProcessTable → ℤ → ℤ → Pcb → Exec (Option ℕ × ProcessTable)
end_wait t current id parent =
    let t1 = put_process t current (record parent { numwait = parent.numwait +ℤ minus_one }) in
    process t1 id >>= exit_release t1 id

-- From `DecNumWait` on, after `joinsem`: the exit code is read after `exitsem` has been raised.
unfoldable pub join_finish : ProcessTable → ℤ → ℤ → Exec (Option ℕ × ProcessTable)
join_finish t current id = process t current >>= end_wait t current id

unfoldable pub join_code : ProcessTable → ℤ → Exec ℤ
join_code t id = process t id >>= λ child. ok child.exitcode

-- `ExitUpdate` up to the wait for `exitsem`, with the thread that `joinsem` wakes.
pub data Exiting : Type 0 where
  through lingers : ℤ → Option ℕ → ProcessTable → Exiting

abbrev pub exit_wait : ProcessTable → ℕ → ℤ → ℤ → Pcb → Option ℕ × Semaphore → Exec Exiting
exit_wait t thread exitcode current c (woken, j) =
    let c1 = record c { exitcode = exitcode; joinsem = j } in
    elim (p c1.exitsem thread) [
      | sleeps s ↦ ok (lingers current woken (put_process t current (record c1 { exitsem = s })))
      | takes s ↦ ok (through current woken (put_process t current (record c1 { exitsem = s })))
    ]

abbrev pub exit_as : ProcessTable → ℕ → ℤ → ℤ → Pcb → Exec Exiting
exit_as t thread exitcode current c = exit_wait t thread exitcode current c (v c.joinsem)

unfoldable pub exit_update : ProcessTable → Caller → ℤ → Exec Exiting
exit_update t caller exitcode = get_current_thread_id t caller >>= λ current.
    if current ==ℤ pos 0
    then halted
    else process t current >>= exit_as t caller.thread exitcode current
