-- ===== src/Scheduler/Perform.antt =====
-- Every action of a thread succeeds, and keeps the ready list and the threads in agreement.
use project.Prelude.{
  ℕ, ◌≡◌, refl, sym, subst, ap, Bool, true, List, Option, none, some, arith, Returns,
}
use project.Scheduler.{blocked, new_thread, with_thread}
use project.Scheduler.Valid.{is_ready, is_running, Intact}
use project.Scheduler.Ready.{with_thread-Sound}
use project.Scheduler.Actions.{
  System, Action, creates, forks, wakes, yields, sleeps, rounds, loads, computes, perform,
}
use project.Scheduler.Safe.{Mode, IsValid, Allowed, other-IsValid, self-IsValid}
use project.Scheduler.Wake.{made_ready-IsValid, fork-IsValid, by_status, not_current}
use project.Scheduler.Yield.{runs_now, yield-IsValid, sleep-IsValid, round-IsValid}

load-IsValid : (c : System) → IsValid c → c.sleeping ≡ none → Returns IsValid (perform c loads)
load-IsValid c v e =
    let s = c.scheduler in
    let t = record v.thread { is_user = true } in
    rw v.here (record {
      out = record c { scheduler = with_thread s s.current (some t) };
      is_out = refl;
      holds =
          self-IsValid c s.current t s.ready_list v
            (with_thread-Sound none s s.current (some t) v.sound (sym (ap is_ready v.here))
              (subst Intact v.here (v.sound.intact s.current)))
            (subst (λ (o : Option Bool). Mode o s.level t) (sym e) (runs_now c v e)) (ground arith);
    })

create-IsValid :
    (c : System) (n : ℕ) (memory : List ℕ)
    → IsValid c
    → c.sleeping ≡ none
    → c.scheduler.threads n ≡ none
    → IsValid (record c { scheduler = with_thread c.scheduler n (some (new_thread memory)) })
create-IsValid c n memory v e free =
    other-IsValid c n (new_thread memory) c.scheduler.ready_list v
      (with_thread-Sound none c.scheduler n (some (new_thread memory)) v.sound
        (sym (ap is_ready free)) (λ w h. cc))
      refl (not_current c n v e (ap is_running free))

pub perform-IsValid :
    (c : System) (a : Action) → IsValid c → Allowed c a → Returns IsValid (perform c a)
perform-IsValid c (creates n memory) v h = record {
  out = _;
  is_out = refl;
  holds = create-IsValid c n memory v h.0 h.1;
}
perform-IsValid c (forks n) v (e, (t, here, fresh)) = fork-IsValid c n t v e here fresh
perform-IsValid c (wakes n) v (t, here, slept, apart) =
    let (unready, idle) = by_status t blocked slept in
    made_ready-IsValid c n t v here unready idle apart
perform-IsValid c yields v e = yield-IsValid c v e
perform-IsValid c (sleeps finishing) v e = sleep-IsValid c finishing v e
perform-IsValid c rounds v h = round-IsValid c c.sleeping v refl
perform-IsValid c loads v e = load-IsValid c v e
perform-IsValid c (computes registers) v e = record {
  out = _;
  is_out = refl;
  holds = record {
    sound = v.sound;
    no_carcass = v.no_carcass;
    thread = v.thread;
    here = v.here;
    mode = v.mode;
    only = v.only;
  };
}
