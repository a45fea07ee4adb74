-- ===== src/ProcessTable/Join.antt =====
-- `ExitUpdate` of a process, and then `JoinUpdate` of its parent.
use project.Prelude.{
  ℕ, ◌+◌, ◌<◌, ◌≡◌, ◌≢◌, refl, sym, ◌∙◌, ap, true, false, [], Option, none, some, arith, ok, ◌==ℤ◌,
  ==ℤ-refl, get_or, length-set, pos, ◌+ℤ◌, ℤ, minus_one, get_elem?-set_self, get_elem?-set_ne,
  get_elem?-eq-get_or, leb, Returns,
}
use project.Semaphore.{v}
use project.ProcessTable.{
  ProcessTable, Pcb, Caller, put, max_process, is_exist, get_current_thread_id,
}
use project.ProcessTable.Wait.{
  exit_update, join_wait, join_child, exit_release, end_wait, lingers, join_update, joined,
  join_finish, join_code,
}
use project.ProcessTable.Exit.{exited, Holds, p_free, exit_lingers}

put_other-Holds :
    (t : ProcessTable) (i j : ℕ) (c : Pcb) (o : Option Pcb)
    → i ≢ j
    → Holds t j c
    → Holds (put t i o) j c
put_other-Holds t i j c o n h =
    (omega (arith, h.0, length-set t.pcb i o), get_elem?-set_ne t.pcb i j o n ∙ h.1)

put-Holds : (t : ProcessTable) (i : ℕ) (c d : Pcb) → Holds t i d → Holds (put t i (some c)) i c
put-Holds t i c d h =
    (omega (arith, h.0, length-set t.pcb i (some c)), get_elem?-set_self t.pcb i (some c) h.0)

join_wait_lem :
    (t : ProcessTable) (thread j k n : ℕ) (z : Pcb)
    → z.joinsem.value ≡ n + 1
    → join_wait t thread (pos j) (pos k) z
      ≡ ok (
          joined
            (pos j)
            (put t k (some (record z { joinsem = record { value = n; queue = z.joinsem.queue } }))))
join_wait_lem t thread j k n z e = rw (p_free z.joinsem thread n e, join_wait) refl

join_child_lem :
    (t : ProcessTable) (thread j k n : ℕ) (q z : Pcb)
    → j ≢ k
    → Holds t k z
    → z.joinsem.value ≡ n + 1
    → join_child t thread (pos j) (pos k) q
      ≡ ok (
          joined (pos j) (
            put
              (put t j (some (record q { numwait = q.numwait +ℤ pos 1 })))
              k
              (some (record z { joinsem = record { value = n; queue = z.joinsem.queue } }))))
join_child_lem t thread j k n q z other at e =
    let waiting = some (record q { numwait = q.numwait +ℤ pos 1 }) in
    rw (put_other-Holds t j k z waiting other at).1
      (join_wait_lem (put t j waiting) thread j k n z e)

exists :
    (t : ProcessTable) (k : ℕ) (z : Pcb) → k < max_process → Holds t k z → is_exist t (pos k) ≡ true
unfolding is_exist
exists t k z h at =
    let inside : leb max_process k ≡ false = ground arith in
    let got = get_elem?-eq-get_or t.pcb k none at.0 in
    let found = at.1 in let here : get_or t.pcb k none ≡ some z = cc in rw (inside, here) refl

join_goes_on :
    (t : ProcessTable) (parent : Caller) (j k n : ℕ) (q z : Pcb)
    → get_current_thread_id t parent ≡ ok (pos j)
    → k < max_process
    → j ≢ k
    → Holds t j q
    → Holds t k z
    → z.parent_id ≡ pos j
    → z.joinsem.value ≡ n + 1
    → join_update t parent (pos k)
      ≡ ok (
          joined (pos j) (
            put
              (put t j (some (record q { numwait = q.numwait +ℤ pos 1 })))
              k
              (some (record z { joinsem = record { value = n; queue = z.joinsem.queue } }))))
unfolding join_update
join_goes_on t parent j k n q z current h other at_j at_k child e =
    let is_child = ap (λ (x : ℤ). x ==ℤ pos j) child ∙ ==ℤ-refl (pos j) in
    let not_self : (pos k ==ℤ pos j) ≡ false = ground arith in
    rw (current, exists t k z h at_k, not_self, at_k.1, is_child, at_j.1)
      (join_child_lem t parent.thread j k n q z other at_k e)

exit_release_lem :
    (t : ProcessTable) (k : ℕ) (z : Pcb)
    → Holds t k z
    → Returns
        (λ (r : Option ℕ × ProcessTable). join_code r.1 (pos k) ≡ ok z.exitcode)
        (exit_release t (pos k) z)
unfolding join_code
exit_release_lem t k z at = record {
  out = ((v z.exitsem).0, put t k (some (record z { exitsem = (v z.exitsem).1 })));
  is_out = refl;
  holds = rw (get_elem?-set_self t.pcb k (some (record z { exitsem = (v z.exitsem).1 })) at.0) refl;
}

end_wait_lem :
    (t : ProcessTable) (j k : ℕ) (q z : Pcb)
    → j ≢ k
    → Holds t k z
    → Returns
        (λ (r : Option ℕ × ProcessTable). join_code r.1 (pos k) ≡ ok z.exitcode)
        (end_wait t (pos j) (pos k) q)
end_wait_lem t j k q z other at =
    let waiting = some (record q { numwait = q.numwait +ℤ minus_one }) in
    let there = put_other-Holds t j k z waiting other at in
    rw (there.1, end_wait) (exit_release_lem (put t j waiting) k z there)

finishes :
    (t : ProcessTable) (j k : ℕ) (q z : Pcb)
    → j ≢ k
    → Holds t j q
    → Holds t k z
    → Returns
        (λ (r : Option ℕ × ProcessTable). join_code r.1 (pos k) ≡ ok z.exitcode)
        (join_finish t (pos j) (pos k))
unfolding join_finish
finishes t j k q z other at_j at_k = rw at_j.1 (end_wait_lem t j k q z other at_k)

-- A child in slot `k`, which is not the main process, for which nobody waits and whose `exitsem` is 0,
-- exits with `code`, and lingers. If its parent in another slot, which is still found there, then
-- joins it, it goes on at once, wakes the child, and the code in the child's slot, which is what it
-- returns where the child has not been removed yet, is `code`.
pub join_after_exit :
    (t : ProcessTable) (child parent : Caller) (j k : ℕ) (q c : Pcb) (code : ℤ)
    → get_current_thread_id t child ≡ ok (pos k)
    → k ≢ 0
    → k < max_process
    → j ≢ k
    → Holds t j q
    → Holds t k c
    → c.parent_id ≡ pos j
    → c.joinsem.queue ≡ []
    → c.exitsem.value ≡ 0
    → get_current_thread_id (put t k (some (exited c code child.thread))) parent ≡ ok (pos j)
    → let t1 = put t k (some (exited c code child.thread)) in
      (exit_update t child code ≡ ok (lingers (pos k) none t1))
      × ((t2 : ProcessTable) × (join_update t1 parent (pos k) ≡ ok (joined (pos j) t2))
          × Returns
              (λ (r : Option ℕ × ProcessTable). join_code r.1 (pos k) ≡ ok code)
              (join_finish t2 (pos j) (pos k)))
join_after_exit t child parent j k q c code current no_main h other at_j at_k is_child empty locked
      found =
    let z = exited c code child.thread in
    let t1 = put t k (some z) in
    let z1 = record z { joinsem = record { value = c.joinsem.value; queue = [] } } in
    let q1 = record q { numwait = q.numwait +ℤ pos 1 } in
    let in_k = put-Holds t k z c at_k in
    let in_j = put_other-Holds t k j q (some z) (λ e. other (sym e)) at_j in
    let t2 = put (put t1 j (some q1)) k (some z1) in
    let later_k = put_other-Holds t1 j k z (some q1) other in_k in
    (
      exit_lingers t child k c code current no_main at_k empty locked,
      (
        t2,
        join_goes_on t1 parent j k c.joinsem.value q z found h other in_j in_k is_child refl,
        finishes t2 j k q1 z1 other
            (put_other-Holds (put t1 j (some q1)) k j q1 (some z1) (λ e. other (sym e))
              (put-Holds t1 j q1 q in_j))
            (put-Holds (put t1 j (some q1)) k z1 z later_k),
      ),
    )
