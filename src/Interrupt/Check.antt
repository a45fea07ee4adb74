-- ===== src/Interrupt/Check.antt =====
-- `CheckIfDue` as a whole.
use project.Prelude.{
  ℕ, ◌+◌, ◌-◌, ◌≤◌, max, ◌≡◌, refl, sym, ap, Bool, true, false, not, ◌&&◌, List, [], ◌∷◌, Option,
  some, Exec, Returns, ok, ◌>>=◌, arith, ltb, leb, if◌then◌else◌, ◌⊎◌, inl, inr, Bool-cases, length,
}
use project.LinkedList.{front, is_empty}
use project.Interrupt.{
  State, PendingInterrupt, Action, is_off, fire, fired, skip_to, with_machine, check_if_due,
}
use project.Interrupt.Due.{due, IsValid}
use project.Interrupt.Fire.{serve, DevicesWait}
use project.Interrupt.Round.{CanLoad, reached, any, Checked, CheckedOption, fires_now}

module _ {K : Type 0} (call_back : ℕ → K → K × List Action) where
  not_yet :
      (now : ℕ) (x : PendingInterrupt) (xs rest : List PendingInterrupt)
      → xs ≡ x ∷ rest
      → leb x.when now ≡ false
      → due now xs ≡ []
  unfolding due
  not_yet now x xs rest e l = rw (e, l) refl

  untouched :
      (s : State K) (now : ℕ)
      → s.total_ticks ≡ now
      → IsValid s
      → due now s.pending.items ≡ []
      → Checked call_back now s.pending.items s.kernel false s
  unfolding serve
  untouched s now t v e = record {
    valid = v;
    clock = t;
    nothing_due = e;
    served = ap (λ (xs : List PendingInterrupt). serve call_back xs s.kernel) (sym e);
    some_fired = ap any (sym e);
  }

  -- The list with its first element.
  abbrev Begins : State K → PendingInterrupt → List PendingInterrupt → Type 0
  Begins s x rest =
      (is_empty s.pending ≡ false) × (front s.pending ≡ ok x) × (s.pending.items ≡ x ∷ rest)

  list_cases :
      (s : State K) (n : ℕ) (xs : List PendingInterrupt)
      → n ≡ length xs
      → let s' = record s { pending = record { items = xs; num_in_list = n } } in
        ((is_empty s'.pending ≡ true) × (xs ≡ []))
        ⊎ ((x : PendingInterrupt) × (rest : List PendingInterrupt) × Begins s' x rest)
  list_cases s n [] e = inl (ground arith, refl)
  list_cases s n (x ∷ xs) e = inr (x, xs, (ground arith, refl, refl))

  nothing_pending :
      (advance_clock : Bool) (now : ℕ) (xs : List PendingInterrupt)
      → xs ≡ []
      → (now ≡ reached advance_clock now xs) × (due (reached advance_clock now xs) xs ≡ [])
  unfolding due
  nothing_pending false now xs e = rw e (refl, refl)
  nothing_pending true now xs e = rw e (refl, refl)

  pub moved :
      (now : ℕ) (x : PendingInterrupt) (xs rest : List PendingInterrupt)
      → xs ≡ x ∷ rest
      → reached true now xs ≡ max now x.when
  moved now x xs rest e = rw e refl

  -- What follows once the first interrupt is known.
  abbrev rest_of_check : ℕ → Bool → State K → PendingInterrupt → Exec (Option (Bool × State K))
  rest_of_check fuel advance_clock s x =
      if ltb s.total_ticks x.when && not advance_clock
      then ok (some (false, s))
      else (let s1 = skip_to s x.when in
          with_machine s1 s1.machine >>= λ s2.
          fire call_back fuel (record s2 { in_handler = true }) >>= fired)

  module _ (waits : DevicesWait call_back) (fuel : ℕ) (s : State K) (x : PendingInterrupt)
      (rest : List PendingInterrupt) (e : s.pending.items ≡ x ∷ rest) (v : IsValid s)
      (c : CanLoad s.machine) (n : length s.pending.items ≤ fuel) where
    some_pending :
        (advance_clock : Bool)
        → Returns
            (CheckedOption call_back
              (reached advance_clock s.total_ticks s.pending.items)
              s.pending.items
              s.kernel)
            (rest_of_check fuel advance_clock s x)
    some_pending false = elim (Bool-cases (ltb s.total_ticks x.when)) [
      | inl l ↦ rw l (record {
        out = some (false, s);
        is_out = refl;
        holds =
            untouched s s.total_ticks refl v
              (not_yet s.total_ticks x s.pending.items rest e (ground arith));
      })
      | inr l ↦ rw l (fires_now call_back waits fuel s x rest e (ground arith) v c n)
    ]
    some_pending true =
        rw (moved s.total_ticks x s.pending.items rest e)
          (elim (Bool-cases (ltb s.total_ticks x.when)) [
            | inl l ↦
                let time : max s.total_ticks x.when ≡ x.when = ground arith in
                let s1 = record s {
                  idle_ticks = s.idle_ticks + (x.when - s.total_ticks);
                  total_ticks = x.when;
                } in
                rw (l, time)
                  (fires_now call_back waits fuel s1 x rest e (ground arith)
                    (record { sorted = v.sorted; made = v.made }) c n)
            | inr l ↦
                let time : max s.total_ticks x.when ≡ s.total_ticks = ground arith in
                rw (l, time) (fires_now call_back waits fuel s x rest e (ground arith) v c n)
          ])

  -- On a valid list of interrupts, with interrupts off and with devices that schedule for later
  -- times only, `CheckIfDue` ends within as many rounds as interrupts are pending: it has called the
  -- handlers of the interrupts that are due, each once and in order, and none that is due is left.
  -- If it may advance the clock and none is due, the time is that of the next interrupt.
  pub check_if_due-Checked :
      (waits : DevicesWait call_back) (fuel : ℕ) (advance_clock : Bool) (s : State K)
      → IsValid s
      → is_off s.level ≡ true
      → CanLoad s.machine
      → length s.pending.items ≤ fuel
      → Returns
          (CheckedOption call_back
            (reached advance_clock s.total_ticks s.pending.items)
            s.pending.items
            s.kernel)
          (check_if_due call_back fuel advance_clock s)
  unfolding check_if_due
  check_if_due-Checked waits fuel advance_clock s v off c n =
      rw off (elim (list_cases s s.pending.num_in_list s.pending.items v.sorted.count) [
        | inl (empty, e) ↦
            let (t, d) = nothing_pending advance_clock s.total_ticks s.pending.items e in
            rw empty (record { out = some (false, s); is_out = refl; holds = untouched s _ t v d })
        | inr (x, rest, (more, at, e)) ↦
            rw (more, at) (some_pending waits fuel s x rest e v c n advance_clock)
      ])
