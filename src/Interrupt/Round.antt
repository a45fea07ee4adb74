-- ===== src/Interrupt/Round.antt =====
-- One round of firing as `CheckIfDue` does it, once the time of an interrupt has come.
use project.Prelude.{
  ℕ, ◌≤◌, max, ◌≡◌, refl, sym, Bool, true, false, List, [], ◌∷◌, Option, none, some, Returns, ok,
  ◌>>=◌, arith, leb, length,
}
use project.Machine.{Machine}
use project.Mips.Retire.{IsReady, delayed_load-ok}
use project.Interrupt.{State, PendingInterrupt, Action, fire, fired, with_machine}
use project.Interrupt.Due.{due, IsValid}
use project.Interrupt.Fire.{serve, DevicesWait, FiredOption, fire-Fired}

-- The machine, if it is there, can do a delayed load.
abbrev pub CanLoad : Option Machine → Type 0
CanLoad none = Unit {0}
CanLoad (some m) = IsReady m

-- The time at which the interrupts are fired.
abbrev pub reached : Bool → ℕ → List PendingInterrupt → ℕ
reached false now xs = now
reached true now [] = now
reached true now (x ∷ xs) = max now x.when

abbrev pub any : List PendingInterrupt → Bool
any [] = false
any (x ∷ xs) = true

module _ {K : Type 0} (call_back : ℕ → K → K × List Action) where
  -- At the time `now` the interrupts of the list `xs` that are due have been served, in order, and
  -- `b` tells whether there were any.
  pub record Checked (now : ℕ) (xs : List PendingInterrupt) (k : K) (b : Bool) (s' : State K)
      : Type 0 where
    pub valid : IsValid s'
    pub clock : s'.total_ticks ≡ now
    pub nothing_due : due now s'.pending.items ≡ []
    pub served : s'.kernel ≡ serve call_back (due now xs) k
    pub some_fired : b ≡ any (due now xs)

  abbrev pub CheckedOption : ℕ → List PendingInterrupt → K → Option (Bool × State K) → Type 0
  CheckedOption now xs k none = ⊥
  CheckedOption now xs k (some (b, s')) = Checked now xs k b s'

  finish :
      (s : State K) (o : Option (State K))
      → any (due s.total_ticks s.pending.items) ≡ true
      → FiredOption call_back s o
      → Returns (CheckedOption s.total_ticks s.pending.items s.kernel) (fired o)
  finish s none a f = absurd f
  finish s (some s') a f = record {
    out = some (true, record s' { in_handler = false });
    is_out = refl;
    holds = record {
      valid = record { sorted = f.valid.sorted; made = f.valid.made };
      clock = f.clock;
      nothing_due = f.nothing_due;
      served = f.served;
      some_fired = sym a;
    };
  }

  with_machine-ok :
      (s : State K) (m : Option Machine)
      → CanLoad m
      → (m' : Option Machine) × (with_machine s m ≡ ok (record s { machine = m' }))
  with_machine-ok s none h = (s.machine, refl)
  with_machine-ok s (some m) h = let (m', e) = delayed_load-ok m 0 0 h in (some m', rw e refl)

  due-le-length : (now : ℕ) (xs : List PendingInterrupt) → length (due now xs) ≤ length xs
  unfolding due
  due-le-length now [] = omega arith
  due-le-length now (x ∷ xs) = ground (arith, due-le-length now xs)

  pub any-due :
      (now : ℕ) (x : PendingInterrupt) (xs rest : List PendingInterrupt)
      → xs ≡ x ∷ rest
      → leb x.when now ≡ true
      → any (due now xs) ≡ true
  unfolding due
  any-due now x xs rest e l = rw (e, l) refl

  pub fires_now :
      (waits : DevicesWait call_back) (fuel : ℕ) (s : State K) (x : PendingInterrupt)
      (rest : List PendingInterrupt)
      → s.pending.items ≡ x ∷ rest
      → leb x.when s.total_ticks ≡ true
      → IsValid s
      → CanLoad s.machine
      → length s.pending.items ≤ fuel
      → Returns (CheckedOption s.total_ticks s.pending.items s.kernel) (
          with_machine s s.machine >>= λ s2.
          fire call_back fuel (record s2 { in_handler = true }) >>= fired)
  fires_now waits fuel s x rest e l v c n =
      let (m', loads) = with_machine-ok s s.machine c in
      let s3 = record s { machine = m'; in_handler = true } in
      let r =
        fire-Fired call_back waits fuel s3 x rest e l (record { sorted = v.sorted; made = v.made })
          refl (omega (arith, due-le-length s.total_ticks s.pending.items)) in
      let last = finish s3 r.out (any-due s.total_ticks x s.pending.items rest e l) r.holds in
      rw (loads, r.is_out) last
