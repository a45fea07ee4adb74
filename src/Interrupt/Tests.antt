-- ===== src/Interrupt/Tests.antt =====
-- The theorems about interrupts, where one is due and one is not. Each handler records its object
-- and schedules the next interrupt.
use project.Prelude.{ℕ, refl, false, List, [], ◌∷◌, none, Returns, arith}
use project.Interrupt.{
  State, PendingInterrupt, Action, schedules, int_off, timer_int, disk_int, user_mode, check_if_due,
  idle,
}
use project.Interrupt.Due.{IsValid}
use project.Interrupt.Fire.{DevicesWait}
use project.Interrupt.Round.{CheckedOption}
use project.Interrupt.Check.{check_if_due-Checked}
use project.Interrupt.Idle.{IdledOption, idle-serves}

abbrev records : ℕ → List ℕ → List ℕ × List Action
records h k = (h ∷ k, schedules h 100 timer_int ∷ [])

records-wait : DevicesWait records
records-wait h k = (omega arith, tt)

abbrev timer : PendingInterrupt
timer = record { address = 0; call_on_interrupt = 3; when = 5; type = timer_int }

abbrev disk : PendingInterrupt
disk = record { address = 1; call_on_interrupt = 4; when = 12; type = disk_int }

abbrev at_seven : List PendingInterrupt → ℕ → State (List ℕ)
at_seven items n = record {
  level = int_off;
  pending = record { items = items; num_in_list = n };
  in_handler = false;
  yield_on_return = false;
  status = user_mode;
  total_ticks = 7;
  idle_ticks = 0;
  system_ticks = 0;
  user_ticks = 7;
  allocated = 2;
  machine = none;
  kernel = [];
}

both-IsValid : IsValid (at_seven (timer ∷ disk ∷ []) 2)
both-IsValid = record {
  sorted = record { count = refl; order = ((omega arith, tt), (tt, tt)) };
  made = (omega arith, (omega arith, tt));
}

check_if_due-Checked_example :
    Returns
      (CheckedOption records 7 (timer ∷ disk ∷ []) [])
      (check_if_due records 2 false (at_seven (timer ∷ disk ∷ []) 2))
check_if_due-Checked_example =
    check_if_due-Checked records records-wait 2 false (at_seven (timer ∷ disk ∷ []) 2) both-IsValid
      refl tt (omega arith)

later-IsValid : IsValid (at_seven (disk ∷ []) 1)
later-IsValid = record {
  sorted = record { count = refl; order = (tt, tt) };
  made = (omega arith, tt);
}

idle-serves_example :
    Returns (IdledOption records 12 (disk ∷ []) []) (idle records 1 (at_seven (disk ∷ []) 1))
idle-serves_example =
    idle-serves records records-wait 1 (at_seven (disk ∷ []) 1) disk [] refl later-IsValid refl tt
      (omega arith)
