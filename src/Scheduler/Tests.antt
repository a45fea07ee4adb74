-- ===== src/Scheduler/Tests.antt =====
-- The theorem about the scheduler: the main thread has forked another one, and yields.
use project.Prelude.{◌≡◌, refl, none, some, ◌==◌, if◌then◌else◌, [], Returns}
use project.LinkedList.{append, is_in}
use project.Scheduler.{new_thread, ready_to_run}
use project.Scheduler.Actions.{System, creates, forks, yields, perform}
use project.Scheduler.Safe.{IsValid}
use project.Scheduler.Reach.{kernel_start, Reachable, start, next, actions-IsValid}

abbrev created : System
created = record {
  scheduler = record (kernel_start [] []).scheduler {
    threads =
        λ m. if m == 1 then some (new_thread []) else (kernel_start [] []).scheduler.threads m;
  };
  sleeping = none;
}

forked : (c : System) × Reachable [] [] c × (c.sleeping ≡ none)
unfolding ready_to_run append is_in
forked = (
  _,
  next created _ (forks 1)
      (next (kernel_start [] []) created (creates 1 []) start (refl, refl) refl)
      (refl, (new_thread [], refl, refl)) refl,
  refl,
)

actions-IsValid_example : IsValid forked.0 × Returns IsValid (perform forked.0 yields)
actions-IsValid_example = actions-IsValid [] [] forked.0 yields forked.1 forked.2
