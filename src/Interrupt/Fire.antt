-- ===== src/Interrupt/Fire.antt =====
-- `Interrupt::CheckIfDue` fires the interrupts that are due, each once and in order, and ends.
use project.Prelude.{
  ℕ, zero, suc, ◌-◌, ◌≤◌, ◌≡◌, refl, sym, ◌∙◌, ap, true, false, List, [], ◌∷◌, Option, none, some,
  Returns, ok, arith, leb, ◌==◌, ◌⊎◌, inl, inr, Bool-cases, length,
}
use project.LinkedList.{LinkedList, remove_front}
use project.LinkedList.Insert.{All}
use project.Interrupt.{State, PendingInterrupt, Action, perform, goes_on, fire}
use project.Interrupt.Due.{due, IsValid, IsLater, Served, perform-Served}

module _ {K : Type 0} (call_back : ℕ → K → K × List Action) where
  -- The rest of the kernel after the handlers of a list of interrupts.
  unfoldable pub serve : List PendingInterrupt → K → K
  serve [] k = k
  serve (x ∷ xs) k = serve xs (call_back x.call_on_interrupt k).0

  -- Every handler schedules interrupts for later times only.
  abbrev pub DevicesWait : Type 0
  DevicesWait = (h : ℕ) (k : K) → All IsLater (call_back h k).1

  -- What the loop comes to.
  pub record Fired (s s' : State K) : Type 0 where
    pub valid : IsValid s'
    pub clock : s'.total_ticks ≡ s.total_ticks
    pub level : s'.level ≡ s.level
    pub nothing_due : due s.total_ticks s'.pending.items ≡ []
    pub served : s'.kernel ≡ serve (due s.total_ticks s.pending.items) s.kernel

  abbrev pub FiredOption : State K → Option (State K) → Type 0
  FiredOption s none = ⊥
  FiredOption s (some s') = Fired s s'

  next_cases :
      (s : State K) (n : ℕ) (xs : List PendingInterrupt)
      → n ≡ length xs
      → let s' = record s { pending = record { items = xs; num_in_list = n } } in
        ((due s.total_ticks xs ≡ []) × (goes_on s' ≡ ok false))
        ⊎ ((y : PendingInterrupt) × (ys : List PendingInterrupt) × (xs ≡ y ∷ ys)
            × (leb y.when s.total_ticks ≡ true)
            × (goes_on s' ≡ ok true))
  unfolding due
  next_cases s n [] e = inl (refl, rw e refl)
  next_cases s n (y ∷ ys) e =
      let more : (n == 0) ≡ false = ground arith in
      elim (Bool-cases (leb y.when s.total_ticks)) [
        | inl l ↦ inr (y, ys, refl, l, rw (more, l) refl)
        | inr l ↦ inl (rw l refl, rw (more, l) refl)
      ]

  removed :
      (l : LinkedList PendingInterrupt) (x : PendingInterrupt) (rest : List PendingInterrupt)
      → l.items ≡ x ∷ rest
      → l.num_in_list ≡ length l.items
      → remove_front l ≡ ok (x, record { items = rest; num_in_list = l.num_in_list - 1 })
  unfolding remove_front
  removed l x rest e n =
      let more : (l.num_in_list == 0) ≡ false = ground (arith, ap length e) in rw (more, e) refl

  due_first :
      (now : ℕ) (x : PendingInterrupt) (xs rest : List PendingInterrupt)
      → xs ≡ x ∷ rest
      → leb x.when now ≡ true
      → due now xs ≡ x ∷ due now rest
  unfolding due
  due_first now x xs rest e l = rw (e, l) refl

  -- One handler, and then the others.
  chained :
      (s s2 : State K) (x : PendingInterrupt) (o : Option (State K))
      → s2.total_ticks ≡ s.total_ticks
      → s2.level ≡ s.level
      → s2.kernel ≡ (call_back x.call_on_interrupt s.kernel).0
      → due s.total_ticks s.pending.items ≡ x ∷ due s2.total_ticks s2.pending.items
      → FiredOption s2 o
      → FiredOption s o
  unfolding serve
  chained s s2 x none clock level kernel d f = f
  chained s s2 x (some s3) clock level kernel d f = record {
    valid = f.valid;
    clock = f.clock ∙ clock;
    level = f.level ∙ level;
    nothing_due = ap (λ (now : ℕ). due now s3.pending.items) (sym clock) ∙ f.nothing_due;
    served =
        f.served
        ∙ ap (serve (due s2.total_ticks s2.pending.items)) kernel
        ∙ ap (λ (xs : List PendingInterrupt). serve xs s.kernel) (sym d);
  }

  settled : (s : State K) → IsValid s → due s.total_ticks s.pending.items ≡ [] → Fired s s
  unfolding serve
  settled s v e = record {
    valid = v;
    clock = refl;
    level = refl;
    nothing_due = e;
    served = ap (λ (xs : List PendingInterrupt). serve xs s.kernel) (sym e);
  }

  module _ (waits : DevicesWait) where
    -- One handler.
    serve_first :
        (s : State K) (x : PendingInterrupt) (rest : List PendingInterrupt)
        → s.pending.items ≡ x ∷ rest
        → IsValid s
        → s.in_handler ≡ true
        → let s1 = record s {
          pending = record { items = rest; num_in_list = s.pending.num_in_list - 1 };
          kernel = (call_back x.call_on_interrupt s.kernel).0;
        } in
          Returns (Served s1) (perform (call_back x.call_on_interrupt s.kernel).1 s1)
    serve_first s x rest e v h =
        let order = rw e at v.sorted.order in
        let made = rw e at v.made in
        perform-Served (call_back x.call_on_interrupt s.kernel).1 _
          (record {
            sorted = record { count = omega (arith, v.sorted.count, ap length e); order = order.1 };
            made = made.1;
          })
          h (waits x.call_on_interrupt s.kernel)

    -- With as much fuel as interrupts are due, the loop ends.
    pub fire-Fired :
        (fuel : ℕ) (s : State K) (x : PendingInterrupt) (rest : List PendingInterrupt)
        → s.pending.items ≡ x ∷ rest
        → leb x.when s.total_ticks ≡ true
        → IsValid s
        → s.in_handler ≡ true
        → length (due s.total_ticks s.pending.items) ≤ fuel
        → Returns (FiredOption s) (fire call_back fuel s)
    unfolding fire
    fire-Fired zero s x rest e l v h n =
        absurd (omega (arith, n, ap length (due_first s.total_ticks x s.pending.items rest e l)))
    fire-Fired (suc fuel) s x rest e l v h n =
        let run = serve_first s x rest e v h in
        let s2 = run.out in
        let d = due_first s.total_ticks x s.pending.items rest e l in
        let same : due s2.total_ticks s2.pending.items ≡ due s.total_ticks rest =
          ap (λ (now : ℕ). due now s2.pending.items) run.holds.clock ∙ run.holds.still_due in
        let whole = d ∙ ap (λ (xs : List PendingInterrupt). x ∷ xs) (sym same) in
        elim (next_cases s2 s2.pending.num_in_list s2.pending.items run.holds.valid.sorted.count) [
          | inl (none_left, g) ↦ record {
            out = some s2;
            is_out = rw (removed s.pending x rest e v.sorted.count, run.is_out, g) refl;
            holds =
                chained s s2 x (some s2) run.holds.clock run.holds.level run.holds.kernel whole
                  (settled s2 run.holds.valid none_left);
          }
          | inr (y, ys, e2, l2, g) ↦
              let ih =
                fire-Fired fuel s2 y ys e2 l2 run.holds.valid (run.holds.handling ∙ h)
                  (omega (arith, ap length same, ap length d)) in
              record {
                out = ih.out;
                is_out = rw (removed s.pending x rest e v.sorted.count, run.is_out, g) ih.is_out;
                holds =
                    chained s s2 x ih.out run.holds.clock run.holds.level run.holds.kernel whole
                      ih.holds;
              }
        ]
