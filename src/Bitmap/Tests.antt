-- ===== src/Bitmap/Tests.antt =====
-- Runs of the bitmap, and its theorems at concrete bitmaps.
use project.Prelude.{
  ℕ, zero, suc, ◌^◌, ◌<◌, ◌≡◌, refl, ◌⊎◌, false, arith, [], ◌∷◌, pos, negsuc, ok, aborted, get_or,
}
use project.Bitmap.{Bitmap, test, mark, clear, find_and_set, find_from, num_clear, count_from}
use project.Bitmap.View.{IsValid, bit, Updates, clear_count}
use project.Bitmap.Laws.{clear-Updates}
use project.Bitmap.Find.{Found, Full, find_and_set_cases}
use project.Bitmap.Count.{num_clear_lem}

-- 34 bits in two words; bits 0, 1 and 33 are set.
abbrev some_set : Bitmap
some_set = record { num_bits = 34; num_words = 2; map = 3 ∷ 2 ∷ [] }

words_fit : (i : ℕ) → get_or (3 ∷ 2 ∷ []) i 0 < 2 ^ 32
words_fit zero = omega arith
words_fit (suc zero) = omega arith
words_fit (suc (suc i)) = omega arith

some_set-IsValid : IsValid some_set
some_set-IsValid = record { rounded = refl; sized = refl; words = words_fit }

find_in_some_set : find_and_set some_set ≡ ok (pos 2, record some_set { map = 7 ∷ 2 ∷ [] })
unfolding find_and_set find_from test mark
find_in_some_set = refl

count_some_set : num_clear some_set ≡ ok 31
unfolding num_clear count_from test
count_some_set = refl

negative_bit : mark some_set (negsuc 0) ≡ aborted
unfolding mark
negative_bit = refl

clear-Updates_example : Updates some_set 33 false (clear some_set (pos 33))
clear-Updates_example = clear-Updates 33 some_set-IsValid (omega arith)

find_and_set_cases_example :
    Found some_set 0 (find_and_set some_set) ⊎ Full some_set 0 (find_and_set some_set)
find_and_set_cases_example = find_and_set_cases some_set some_set-IsValid

num_clear_lem_example : num_clear some_set ≡ ok (clear_count (bit some_set) 34)
num_clear_lem_example = num_clear_lem some_set some_set-IsValid
