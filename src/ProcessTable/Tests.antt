-- ===== src/ProcessTable/Tests.antt =====
-- The theorems about processes, with those of ProcessTable/Sample.
use project.Prelude.{
  ◌/◌, ◌*◌, ◌+◌, ℕ, zero, suc, ◌<◌, ◌≡◌, refl, ◌^◌, true, [], ◌∷◌, none, some, pos, ok, arith,
  get_or, get_or-replicate,
}
use project.Bitmap.View.{bit}
use project.Bits.{test_bit}
use project.ProcessTable.Sample.{
  opens_all, program, child_pcb, two_processes, no_process, main_caller, main_is_current,
}
use project.ProcessTable.{ProcessTable, main_pcb, main_name, finished, remove, exec_locked}
use project.ProcessTable.Slots.{IsValid, HasFile, occupied, Lingers, remove-Lingers}
use project.ProcessTable.Start.{Starts, exec_locked-Starts}

word_fits : (i : ℕ) → get_or (3 ∷ []) i 0 < 2 ^ 32
word_fits zero = omega arith
word_fits (suc i) = omega arith

two-agree :
    (i : ℕ)
    → i < 10
    → bit two_processes.bm i ≡ true
    → occupied (get_or two_processes.pcb i none) ≡ true
unfolding bit test_bit
two-agree zero h b = refl
two-agree (suc zero) h b = refl
two-agree (suc (suc zero)) h b = cc
two-agree (suc (suc (suc zero))) h b = cc
two-agree (suc (suc (suc (suc zero)))) h b = cc
two-agree (suc (suc (suc (suc (suc zero))))) h b = cc
two-agree (suc (suc (suc (suc (suc (suc zero)))))) h b = cc
two-agree (suc (suc (suc (suc (suc (suc (suc zero))))))) h b = cc
two-agree (suc (suc (suc (suc (suc (suc (suc (suc zero)))))))) h b = cc
two-agree (suc (suc (suc (suc (suc (suc (suc (suc (suc zero))))))))) h b = cc
two-agree (suc (suc (suc (suc (suc (suc (suc (suc (suc (suc i)))))))))) h b = absurd (omega arith)

two-named : (i : ℕ) → HasFile (get_or two_processes.pcb i none)
two-named zero = (main_name, refl)
two-named (suc zero) = (program, refl)
two-named (suc (suc i)) = rw (get_or-replicate 8 i no_process) tt

two-IsValid : IsValid two_processes
two-IsValid = record {
  bitmap = record { rounded = refl; sized = refl; words = word_fits };
  bits = refl;
  slots = refl;
  agree = two-agree;
  named = two-named;
}

-- A block of whole double words.
abbrev roomy : ℕ → ℕ
roomy n = n / 8 * 8 + 8

exec_locked-Starts_example :
    Starts opens_all roomy two_processes main_name (pos 0) (some (b'b' ∷ 0 ∷ [])) 6 (
      exec_locked opens_all
        (record { thread = some 6; block = roomy })
        two_processes
        main_caller
        (some (b'b' ∷ 0 ∷ [])))
exec_locked-Starts_example =
    exec_locked-Starts opens_all roomy two_processes main_caller 0 6 (main_pcb main_name 4)
      main_name (some (b'b' ∷ 0 ∷ [])) two-IsValid main_is_current refl refl

remove-Lingers_example :
    (t : ProcessTable) × (remove two_processes 5 (pos 1) ≡ ok (finished t))
    × Lingers two_processes 1 t
remove-Lingers_example =
    remove-Lingers two_processes 5 1 child_pcb two-IsValid (omega arith) refl refl
