-- ===== src/Mips/Word.antt =====
-- Arithmetic on 32-bit patterns, as C does it on `int` and `unsigned int`.
use project.Prelude.{
  ℕ, ◌+◌, ◌-◌, ◌*◌, ◌/◌, ◌%◌, ◌^◌, Bool, not, ℤ, pos, negsuc, ltb, ltb_ℤ, ◌==◌, if◌then◌else◌,
  bit_and,
}

abbrev pub word : ℕ
word = 2 ^ 32

abbrev pub sign_bit : ℕ
sign_bit = 0x80000000

-- `a + b`, `a - b` and `-a`.
abbrev pub add : ℕ → ℕ → ℕ
add a b = (a + b) % word

abbrev pub sub : ℕ → ℕ → ℕ
sub a b = (a + word - b) % word

abbrev pub neg : ℕ → ℕ
neg a = (word - a) % word

-- `~a`
abbrev pub complement : ℕ → ℕ
complement a = word - 1 - a

-- `a & m` as a condition.
abbrev pub has : ℕ → ℕ → Bool
has a m = not (bit_and a m == 0)

-- The `int` of a pattern.
abbrev pub to_int : ℕ → ℤ
to_int a = if ltb a sign_bit then pos a else negsuc (word - 1 - a)

-- `a < b` on `int`.
abbrev pub less : ℕ → ℕ → Bool
less a b = ltb_ℤ (to_int a) (to_int b)

-- `a << k`
abbrev pub shift_left : ℕ → ℕ → ℕ
shift_left a k = a * 2 ^ k % word

-- `a >> k` on `int`: the sign is shifted in.
abbrev pub shift_right : ℕ → ℕ → ℕ
shift_right a k = if ltb a sign_bit then a / 2 ^ k else word - 2 ^ (32 - k) + a / 2 ^ k

-- `a >> k` on `unsigned int`.
abbrev pub shift_right_unsigned : ℕ → ℕ → ℕ
shift_right_unsigned a k = a / 2 ^ k
