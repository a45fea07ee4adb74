-- ===== src/Bitmap/Count.antt =====
-- `NumClear`, and what `Mark` and `Clear` do to the number.
use native.Mathlib.Decide.{ℕ_discrete}
use native.Mathlib.Numerals.{add-one}
use project.Prelude.{
  ℕ, zero, suc, ◌+◌, ◌≤◌, ◌<◌, ◌≡◌, refl, inl, inr, ◌∙◌, ap, Bool, true, false, arith, ok,
  if◌then◌else◌,
}
use project.Bitmap.{Bitmap, count_from, num_clear, find_and_set}
use project.Bitmap.View.{IsValid, bit, update, clear_count}
use project.Bitmap.Laws.{test_lem}
use project.Bitmap.Find.{Found, find_and_set_cases}

clear_count-suc :
    (f : ℕ → Bool) (i : ℕ) → clear_count f (i + 1) ≡ clear_count f i + (if f i then 0 else 1)
unfolding clear_count
clear_count-suc f i = rw add-one

count_from_lem :
    (left i count : ℕ) (b : Bitmap)
    → IsValid b
    → i + left ≡ b.num_bits
    → count ≡ clear_count (bit b) i
    → count_from b left i count ≡ ok (clear_count (bit b) b.num_bits)
unfolding count_from
count_from_lem zero i count b v e c = ap ok (c ∙ ap (clear_count (bit b)) (omega arith))
count_from_lem (suc left) i count b v e c =
    rw (test_lem i v (omega arith))
      (count_from_lem left (i + 1) _ b v (omega arith) (ground (arith, clear_count-suc (bit b) i)))

-- `NumClear` counts the clear bits.
pub num_clear_lem : (b : Bitmap) → IsValid b → num_clear b ≡ ok (clear_count (bit b) b.num_bits)
unfolding num_clear
num_clear_lem b v = count_from_lem b.num_bits 0 0 b v (omega arith) (unfold clear_count in refl)

-- Above `n` the count does not look.
clear_count-above :
    (f : ℕ → Bool) (n i : ℕ) (v : Bool) → n ≤ i → clear_count (update f i v) n ≡ clear_count f n
unfolding clear_count
clear_count-above f zero i v h = refl
clear_count-above f (suc n) i v h = ground (arith, clear_count-above f n i v)

-- Setting a clear bit takes one off the count.
pub clear_count-mark :
    (f : ℕ → Bool) (n i : ℕ)
    → i < n
    → f i ≡ false
    → clear_count (update f i true) n + 1 ≡ clear_count f n
unfolding clear_count
clear_count-mark f zero i h c = absurd (omega arith)
clear_count-mark f (suc n) i h c = elim (ℕ_discrete i n) [
  | yes e ↦ rw (← e) (ground (arith, clear_count-above f i i true))
  | no e ↦ ground (arith, clear_count-mark f n i)
]

-- Clearing a set bit adds one.
pub clear_count-clear :
    (f : ℕ → Bool) (n i : ℕ)
    → i < n
    → f i ≡ true
    → clear_count (update f i false) n ≡ clear_count f n + 1
unfolding clear_count
clear_count-clear f zero i h c = absurd (omega arith)
clear_count-clear f (suc n) i h c = elim (ℕ_discrete i n) [
  | yes e ↦ rw (← e) (ground (arith, clear_count-above f i i false))
  | no e ↦ ground (arith, clear_count-clear f n i)
]

pub clear_count-le : (f : ℕ → Bool) (n : ℕ) → clear_count f n ≤ n
unfolding clear_count
clear_count-le f zero = omega arith
clear_count-le f (suc n) = ground (arith, clear_count-le f n)

-- Where all bits are set the count is zero.
pub clear_count-all : (f : ℕ → Bool) (n : ℕ) → ((j : ℕ) → j < n → f j ≡ true) → clear_count f n ≡ 0
unfolding clear_count
clear_count-all f zero h = refl
clear_count-all f (suc n) h = ground (arith, h n, clear_count-all f n (λ j p. h j (omega arith)))

-- While the count is positive, `FindAndSet` finds a bit, and the count falls by one.
pub find_and_set-Found :
    (b : Bitmap) → IsValid b → 0 < clear_count (bit b) b.num_bits → Found b 0 (find_and_set b)
find_and_set-Found b v h = elim (find_and_set_cases b v) [
  | inl f ↦ f
  | inr f ↦
      absurd
        (omega (arith, clear_count-all (bit b) b.num_bits (λ j p. f.all_set j (omega arith) p)))
]

-- Where no bit is set all are counted.
pub clear_count-none : (n : ℕ) → clear_count (λ _. false) n ≡ n
unfolding clear_count
clear_count-none zero = refl
clear_count-none (suc n) = omega (arith, clear_count-none n)

-- A bit that was found and set is one clear bit less.
pub find_takes_one :
    {b : Bitmap} (f : Found b 0 (find_and_set b))
    → clear_count (bit f.out) f.out.num_bits + 1 ≡ clear_count (bit b) b.num_bits
find_takes_one {b} f =
    rw (f.bits, f.same_size) (clear_count-mark (bit b) b.num_bits f.at f.in_range f.was_clear)
