-- ===== src/SemaphoreTable/Tests.antt =====
-- The theorems about user semaphores, on a table with one semaphore.
use project.Prelude.{
  ℕ, zero, suc, ◌<◌, ◌≡◌, refl, ◌^◌, true, [], ◌∷◌, some, arith, get_or, replicate,
}
use project.Bitmap.View.{bit}
use project.Bits.{test_bit}
use project.Semaphore.{new_semaphore}
use project.CString.{strlen, chars}
use project.SemaphoreTable.{SemaphoreTable, Sem, no_sem, create}
use project.SemaphoreTable.Search.{IsValid, Holds}
use project.SemaphoreTable.Create.{Creates, create-Creates}

abbrev door : Sem
door = record { name = b'd' ∷ 0 ∷ []; sem = new_semaphore 1 }

abbrev one_semaphore : SemaphoreTable
one_semaphore = record {
  bm = record { num_bits = 10; num_words = 1; map = 1 ∷ [] };
  sem_tab = some door ∷ replicate 9 no_sem;
}

one_word : (i : ℕ) → get_or (1 ∷ []) i 0 < 2 ^ 32
one_word zero = omega arith
one_word (suc i) = omega arith

one-filled : (i : ℕ) → i < 10 → bit one_semaphore.bm i ≡ true → (s : Sem) × Holds one_semaphore i s
unfolding bit test_bit
one-filled zero h b = (door, refl)
one-filled (suc zero) h b = absurd cc
one-filled (suc (suc zero)) h b = absurd cc
one-filled (suc (suc (suc zero))) h b = absurd cc
one-filled (suc (suc (suc (suc zero)))) h b = absurd cc
one-filled (suc (suc (suc (suc (suc zero))))) h b = absurd cc
one-filled (suc (suc (suc (suc (suc (suc zero)))))) h b = absurd cc
one-filled (suc (suc (suc (suc (suc (suc (suc zero))))))) h b = absurd cc
one-filled (suc (suc (suc (suc (suc (suc (suc (suc zero)))))))) h b = absurd cc
one-filled (suc (suc (suc (suc (suc (suc (suc (suc (suc zero))))))))) h b = absurd cc
one-filled (suc (suc (suc (suc (suc (suc (suc (suc (suc (suc i)))))))))) h b = absurd (omega arith)

one-IsValid : IsValid one_semaphore
one-IsValid = record {
  bitmap = record { rounded = refl; sized = refl; words = one_word };
  bits = refl;
  slots = refl;
  filled = one-filled;
}

short_name : strlen (b'k' ∷ 0 ∷ []) < 50
unfolding strlen chars
short_name = omega arith

create-Creates_example :
    Creates one_semaphore (b'k' ∷ 0 ∷ []) 3 (create one_semaphore (b'k' ∷ 0 ∷ []) 3)
create-Creates_example = create-Creates one_semaphore (b'k' ∷ 0 ∷ []) 3 one-IsValid short_name
