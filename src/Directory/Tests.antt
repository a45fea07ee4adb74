-- ===== src/Directory/Tests.antt =====
-- The theorems about directories, on a directory with one file.
use project.Prelude.{ℕ, refl, true, false, List, [], ◌∷◌, pos, replicate}
use project.Directory.{Directory, add, remove}
use project.Directory.View.{IsValid}
use project.Directory.Add.{Adds, add-Adds}
use project.Directory.Remove.{Removes, remove-Removes}

abbrev blank : List ℕ
blank = replicate 8 0

abbrev notes : List ℕ
notes = b'a' ∷ b'b' ∷ blank

abbrev one_file : Directory
one_file = record {
  table =
      record { in_use = true; sector = pos 5; name = notes }
      ∷ record { in_use = false; sector = pos 0; name = replicate 10 0 }
      ∷ [];
}

one_file-IsValid : IsValid one_file.table
one_file-IsValid = (refl, (λ h. refl), (refl, (λ h. cc), tt))

add-Adds_example : Adds one_file (b'c' ∷ 0 ∷ []) (pos 7) (add one_file (b'c' ∷ 0 ∷ []) (pos 7))
add-Adds_example = add-Adds one_file (b'c' ∷ 0 ∷ []) (pos 7) one_file-IsValid

remove-Removes_example : Removes one_file notes (remove one_file notes)
remove-Removes_example = remove-Removes one_file notes one_file-IsValid
