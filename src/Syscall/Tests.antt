-- ===== src/Syscall/Tests.antt =====
-- The theorems about system calls, on the machine of UserMemory/Sample and the host of
-- FileTable/Sample.
use project.Prelude.{◌≡◌, refl, [], ◌∷◌, pos, undefined, get_or-replicate, ap, sym, ◌∙◌}
use project.FileTable.{new_table, capacity}
use project.FileTable.Descriptor.{FileDescriptor, blank}
use project.FileTable.Slots.{Unused}
use project.FileTable.Sample.{sample_host}
use project.UserMemory.{user_to_system, copy_string}
use project.UserMemory.Sample.{sample}
use project.Syscall.{Kernel, copy_in, sys_seek, sys_read, sys_write}
use project.Syscall.Unopened.{unopened_id}

abbrev kernel : Kernel sample_host
kernel = record { machine = sample; files = new_table; world = 0 }

nine-Unused : Unused new_table (pos 9)
nine-Unused i h =
    let e = sym (ap (λ (d : FileDescriptor). d.id) (get_or-replicate capacity i blank)) ∙ h in cc

unopened_id_example :
    (sys_seek sample_host kernel (pos 1) (pos 9) ≡ undefined)
    × (sys_read sample_host kernel 0 0 (pos 9) ≡ undefined)
    × (sys_write sample_host kernel 0 0 (pos 9) ≡ undefined)
unfolding copy_in user_to_system copy_string
unopened_id_example = unopened_id sample_host kernel 7 (pos 1) 0 0 (0 ∷ [], kernel) nine-Unused refl
