-- ===== src/Bitmap.antt =====
-- lib/bitmap.h and lib/bitmap.cc: `class Bitmap`, an array of 32-bit words read bit by bit. Its
-- methods stand here as functions that return the new bitmap; a failed ASSERT ends in `aborted`.
pub mod View
pub mod Laws
pub mod Init
pub mod Find
pub mod Marks
pub mod Count
mod Tests
use project.Prelude.{
  ℕ, zero, suc, ◌+◌, ◌-◌, ◌*◌, ◌/◌, ◌%◌, ◌^◌, bit_and, bit_or, Bool, true, false, not, List, arith,
  ℤ, pos, negsuc, minus_one, Exec, ok, aborted, ◌>>=◌, ◌>>◌, assert, defined, ltb, ◌==◌,
  if◌then◌else◌, get_elem?, set, replicate,
}

-- `sizeof(unsigned int) * BitsInByte` on the 32-bit host that the build asks for (-m32).
abbrev pub bits_in_word : ℕ
bits_in_word = 32

-- `divRoundUp` of lib/utility.h, on non-negative numbers.
abbrev pub div_round_up : ℕ → ℕ → ℕ
div_round_up n s = n / s + (if ltb 0 (n % s) then 1 else 0)

pub record Bitmap : Type 0 where
  pub num_bits : ℕ
  pub num_words : ℕ
  pub map : List ℕ

-- `1 << (which % BitsInWord)`, converted to `unsigned int`.
abbrev pub mask : ℕ → ℕ
mask which = 2 ^ (which % bits_in_word)

-- `~mask` in a word.
abbrev pub complement : ℕ → ℕ
complement m = 2 ^ bits_in_word - 1 - m

pub test : Bitmap → ℤ → Exec Bool
test b (negsuc n) = aborted
test b (pos which) = do
  assert (ltb which b.num_bits)
  word ← defined (get_elem? b.map (which / bits_in_word))
  ok (not (bit_and word (mask which) == 0))

pub mark : Bitmap → ℤ → Exec Bitmap
mark b (negsuc n) = aborted
mark b (pos which) = do
  assert (ltb which b.num_bits)
  word ← defined (get_elem? b.map (which / bits_in_word))
  let b' = record b { map = set b.map (which / bits_in_word) (bit_or word (mask which)) }
  marked ← test b' (pos which)
  assert marked
  ok b'

pub clear : Bitmap → ℤ → Exec Bitmap
clear b (negsuc n) = aborted
clear b (pos which) = do
  assert (ltb which b.num_bits)
  word ← defined (get_elem? b.map (which / bits_in_word))
  let b' = record b {
    map = set b.map (which / bits_in_word) (bit_and word (complement (mask which)));
  }
  marked ← test b' (pos which)
  assert (not marked)
  ok b'

-- `for (i = 0; i < numBits; i++) Clear(i)`, with `left` rounds to go.
pub clear_from : Bitmap → ℕ → ℕ → Exec Bitmap
clear_from b zero i = ok b
clear_from b (suc left) i = clear b (pos i) >>= λ b'. clear_from b' left (i + 1)

pub init : ℤ → Exec Bitmap
init (negsuc n) = aborted
init (pos num_items) = do
  assert (ltb 0 num_items)
  let words = div_round_up num_items bits_in_word
  clear_from (record { num_bits = num_items; num_words = words; map = replicate words 0 }) num_items
      0

-- The loop of `FindAndSet`: the first clear bit from `i` on is set and returned.
pub find_from : Bitmap → ℕ → ℕ → Exec (ℤ × Bitmap)
find_from b zero i = ok (minus_one, b)
find_from b (suc left) i = do
  let rest = find_from b left (i + 1)
  marked ← test b (pos i)
  if marked then rest else (mark b (pos i) >>= λ b'. ok (pos i, b'))

pub find_and_set : Bitmap → Exec (ℤ × Bitmap)
find_and_set b = find_from b b.num_bits 0

-- The loop of `NumClear`.
pub count_from : Bitmap → ℕ → ℕ → ℕ → Exec ℕ
count_from b zero i count = ok count
count_from b (suc left) i count = do
  marked ← test b (pos i)
  count_from b left (i + 1) (if marked then count else count + 1)

pub num_clear : Bitmap → Exec ℕ
num_clear b = count_from b b.num_bits 0 0
