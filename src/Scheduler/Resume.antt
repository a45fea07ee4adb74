-- ===== src/Scheduler/Resume.antt =====
-- The thread that goes on after `SWITCH`: `CheckToBeDestroyed`, and then the rest of `Run` or `Begin`.
use project.Prelude.{
  ℕ, ◌≡◌, refl, sym, subst, ◌∙◌, ap, Bool, true, false, none, some, arith, ◌==◌, inl, inr,
  Bool-cases, Returns, Returns->>=,
}
use project.Interrupt.{is_off, int_on}
use project.Scheduler.{
  Thread, Scheduler, with_thread, at_level, check_to_be_destroyed, restore_user_state, goes_on_in,
  switched_in, run,
}
use project.Scheduler.Valid.{is_ready, is_running, Intact, with_self, with_other}
use project.Scheduler.Ready.{with_thread-Sound}
use project.Scheduler.Switch.{Current, Runs, Leaves, Started, run-Started}
use project.Scheduler.Actions.{switch_to}

record Cleaned (s : Scheduler) (out : Scheduler) : Type 0 where
  runs : Runs out
  current : out.current ≡ s.current
  same : out.threads s.current ≡ s.threads s.current

clean :
    (s : Scheduler) (next : ℕ) (finishing : Bool) (out : Scheduler)
    → Started s next finishing out
    → Returns (Cleaned out) (check_to_be_destroyed out)
unfolding check_to_be_destroyed
clean s next false out h = record {
  out = out;
  is_out = rw h.carcass_left refl;
  holds = record {
    runs = record {
      sound = h.sound;
      no_carcass = h.carcass_left;
      at = subst (Current out.threads) (sym h.current) h.at;
    };
    current = refl;
    same = refl;
  };
}
clean s next true out h =
    let (unready, differs) = h.gone refl in
    let other : (s.current == out.current) ≡ false = rw h.current differs in
    let swapped : (out.current == s.current) ≡ false = ground (arith, other) in
    let at = subst (Current out.threads) (sym h.current) h.at in
    record {
      out = record (with_thread out s.current none) { to_be_destroyed = none };
      is_out = rw (h.carcass_left, other) refl;
      holds = record {
        runs = record {
          sound = with_thread-Sound none out s.current none h.sound (sym unready) tt;
          no_carcass = refl;
          at = record {
            thread = at.thread;
            here = with_other out s.current out.current none swapped ∙ at.here;
            runs = at.runs;
            only = λ m e. elim (Bool-cases (m == s.current)) [
              | inl o ↦ rw o refl
              | inr o ↦ rw o (at.only m e)
            ];
          };
        };
        current = refl;
        same = with_other out s.current out.current none swapped;
      };
    }

restored-Runs : (t : Thread) (s : Scheduler) → Runs s → Runs (restore_user_state t s)
restored-Runs t s r = elim (Bool-cases t.is_user) [
  | inl e ↦ rw e (record { sound = r.sound; no_carcass = r.no_carcass; at = r.at })
  | inr e ↦ rw e r
]

begun-Runs :
    (t : Thread) (s : Scheduler)
    → Runs s
    → s.threads s.current ≡ some t
    → Runs (at_level int_on (with_thread s s.current (some (record t { begun = true }))))
begun-Runs t s r here = record {
  sound =
      with_thread-Sound none s s.current (some (record t { begun = true })) r.sound
        (ap is_ready (sym here)) (subst Intact here (r.sound.intact s.current));
  no_carcass = r.no_carcass;
  at = record {
    thread = record t { begun = true };
    here = with_self s s.current (some (record t { begun = true }));
    runs = ap is_running (sym here) ∙ ap is_running r.at.here ∙ r.at.runs;
    only = λ m e. rw e (r.at.only m e);
  };
}

goes_on-Runs :
    (t : Thread) (s : Scheduler)
    → is_off s.level ≡ true
    → s.threads s.current ≡ some t
    → Returns (Cleaned s) (check_to_be_destroyed s)
    → Returns Runs (goes_on_in t s)
goes_on-Runs t s off here c = elim (Bool-cases t.begun) [
  | inl e ↦ record {
    out = restore_user_state t c.out;
    is_out = rw (e, off, c.is_out) refl;
    holds = restored-Runs t c.out c.holds.runs;
  }
  | inr e ↦ record {
    out = at_level int_on (with_thread c.out c.out.current (some (record t { begun = true })));
    is_out = rw (e, c.is_out) refl;
    holds =
        begun-Runs t c.out c.holds.runs (ap c.out.threads c.holds.current ∙ c.holds.same ∙ here);
  }
]

-- The next thread goes on as the one that runs.
pub switch_to-Runs :
    (s : Scheduler) (next : ℕ) (finishing : Bool)
    → Leaves s next finishing
    → Returns Runs (switch_to finishing s next)
unfolding switched_in
switch_to-Runs s next finishing h =
    Returns->>= (Started s next finishing) Runs (run s next finishing) switched_in
      (run-Started s next finishing h)
      (λ out st.
        let at = subst (Current out.threads) (sym st.current) st.at in
        rw at.here (goes_on-Runs at.thread out st.off at.here (clean s next finishing out st)))
