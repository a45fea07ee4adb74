-- ===== src/Interrupt/Idle.antt =====
-- `Idle`: what it waits for comes.
use project.Prelude.{
  ℕ, ◌≤◌, max, ◌≡◌, refl, ◌∙◌, Bool, true, false, List, ◌∷◌, Option, none, some, Returns, arith,
  length,
}
use project.Interrupt.{State, PendingInterrupt, Action, is_off}
use project.Interrupt.{idle, idled, idle_mode, system_mode}
use project.Interrupt.Due.{due, IsValid}
use project.Interrupt.Fire.{DevicesWait}
use project.Interrupt.Round.{CanLoad, reached, any, Checked, CheckedOption, any-due}
use project.Interrupt.Check.{moved, check_if_due-Checked}

module _ {K : Type 0} (call_back : ℕ → K → K × List Action) where
  due_then :
      (now : ℕ) (x : PendingInterrupt) (xs rest : List PendingInterrupt)
      → xs ≡ x ∷ rest
      → any (due (reached true now xs) xs) ≡ true
  due_then now x xs rest e =
      rw (moved call_back now x xs rest e)
        (any-due call_back (max now x.when) x xs rest e (ground arith))

  abbrev pub IdledOption : ℕ → List PendingInterrupt → K → Option (State K) → Type 0
  IdledOption now xs k none = ⊥
  IdledOption now xs k (some s') = Checked call_back now xs k true s' × (s'.status ≡ system_mode)

  idled_after :
      (now : ℕ) (xs : List PendingInterrupt) (k : K) (o : Option (Bool × State K))
      → any (due now xs) ≡ true
      → CheckedOption call_back now xs k o
      → Returns (IdledOption now xs k) (idled o)
  idled_after now xs k none a h = absurd h
  idled_after now xs k (some (false, s)) a h = let wrong = h.some_fired ∙ a in cc
  idled_after now xs k (some (true, s)) a h = record {
    out = some (record s { status = system_mode });
    is_out = refl;
    holds = (
      record {
        valid = record { sorted = h.valid.sorted; made = h.valid.made };
        clock = h.clock;
        nothing_due = h.nothing_due;
        served = h.served;
        some_fired = h.some_fired;
      },
      refl,
    );
  }

  -- On a valid list of pending interrupts that is not empty, with interrupts off, a machine that can do
  -- its delayed load, handlers that schedule for later times only and as much fuel as interrupts are
  -- pending, `Idle` does not halt: it serves the interrupts that are due, of which there is one once
  -- the clock has moved on to the next, and returns in system mode.
  pub idle-serves :
      (waits : DevicesWait call_back) (fuel : ℕ) (s : State K) (x : PendingInterrupt)
      (rest : List PendingInterrupt)
      → s.pending.items ≡ x ∷ rest
      → IsValid s
      → is_off s.level ≡ true
      → CanLoad s.machine
      → length s.pending.items ≤ fuel
      → Returns
          (IdledOption (reached true s.total_ticks s.pending.items) s.pending.items s.kernel)
          (idle call_back fuel s)
  unfolding idle
  idle-serves waits fuel s x rest e v off c n =
      let r =
        check_if_due-Checked call_back waits fuel true (record s { status = idle_mode })
          (record { sorted = v.sorted; made = v.made }) off c n in
      rw r.is_out (
        idled_after (reached true s.total_ticks s.pending.items) s.pending.items s.kernel r.out
          (due_then s.total_ticks x s.pending.items rest e) r.holds)
