-- ===== src/Mips/Overflow.antt =====
-- ADD, ADDI and SUB: the checked arithmetic on `int`.
use project.Prelude.{
  ℕ, ◌^◌, ◌<◌, ◌≡◌, Bool, true, false, not, ◌&&◌, Exec, inl, inr, arith, ltb, leb, if◌then◌else◌,
  bit_xor, Bool-cases, ℤ, pos, negsuc, ◌+ℤ◌, ◌-ℤ◌,
}
use project.Bits.{bit_and-pow, test_bit-xor}
use project.Bits.Mask.{test_bit-top}
use project.Machine.{Machine}
use project.Mips.OpCode.{op_add, op_addi, op_sub}
use project.Mips.Decode.{Instruction}
use project.Mips.Word.{word, sign_bit, add, sub, has, to_int}
use project.Mips.Mult.{differ}
use project.Mips.Cpu.{Effect, computes, overflows}
use project.Mips.Execute.{execute}

-- The range of `int`.
abbrev pub in_int : ℤ → Bool
in_int (pos n) = ltb n (2 ^ 31)
in_int (negsuc n) = ltb n (2 ^ 31)

-- The integer `z` goes to register `r` if it is an `int`; else there is an overflow.
pub data Checked (m : Machine) (r : ℕ) (z : ℤ) : Exec Effect → Type 0 where
  exact : (w : ℕ) → w < word → to_int w ≡ z → Checked m r z (computes m r w)
  overflow : in_int z ≡ false → Checked m r z (overflows m)

-- `(a ^ b) & SIGN_BIT`: the signs differ.
has-bit_xor :
    (a b : ℕ)
    → a < word
    → b < word
    → has (bit_xor a b) sign_bit ≡ differ (leb sign_bit a) (leb sign_bit b)
has-bit_xor a b h g = ground (
  arith,
  bit_and-pow 31 (bit_xor a b),
  test_bit-xor 31 a b,
  test_bit-top 31 a h,
  test_bit-top 31 b g,
)

module _ (s t : ℕ) (h : s < word) (g : t < word) where
  add_sign :
      (not (differ (leb sign_bit s) (leb sign_bit t))
        && differ (leb sign_bit s) (leb sign_bit (add s t)))
      ≡ not (in_int (to_int s +ℤ to_int t))
  add_sign = ground arith

  addi_sign :
      (not (differ (leb sign_bit s) (leb sign_bit t))
        && differ (leb sign_bit t) (leb sign_bit (add s t)))
      ≡ not (in_int (to_int s +ℤ to_int t))
  addi_sign = ground arith

  add_exact : in_int (to_int s +ℤ to_int t) ≡ true → to_int (add s t) ≡ to_int s +ℤ to_int t
  add_exact f = ground arith

  sub_sign :
      (differ (leb sign_bit s) (leb sign_bit t) && differ (leb sign_bit s) (leb sign_bit (sub s t)))
      ≡ not (in_int (to_int s -ℤ to_int t))
  sub_sign = ground arith

  sub_exact : in_int (to_int s -ℤ to_int t) ≡ true → to_int (sub s t) ≡ to_int s -ℤ to_int t
  sub_exact f = ground arith

checked :
    (m : Machine) (r w : ℕ) (z : ℤ) (test : Bool)
    → w < word
    → test ≡ not (in_int z)
    → (in_int z ≡ true → to_int w ≡ z)
    → Checked m r z (if test then overflows m else computes m r w)
checked m r w z test h e f = elim (Bool-cases (in_int z)) [
  | inl i ↦ rw (e, i) (exact w h (f i))
  | inr o ↦ rw (e, o) (overflow o)
]

module _ (i : Instruction) (m : Machine) (s t : ℕ) (h : s < word) (g : t < word)
    (f : i.extra < word) where
  -- On operands that are 32-bit words, ADD and SUB put the exact sum and the exact difference of the
  -- operands, read as `int`, into register rd, and ADDI the sum of the first and the immediate into
  -- register rt, if it is an `int`; else they raise the overflow exception with nothing written.
  pub exact_or_overflow :
      Checked m i.rd (to_int s +ℤ to_int t) (execute op_add i m s t)
      × Checked m i.rd (to_int s -ℤ to_int t) (execute op_sub i m s t)
      × Checked m i.rt (to_int s +ℤ to_int i.extra) (execute op_addi i m s t)
  unfolding execute
  exact_or_overflow = (
    checked m i.rd (add s t) (to_int s +ℤ to_int t) _ (omega arith)
        (rw (has-bit_xor s t h g, has-bit_xor s (add s t) h (omega arith)) (add_sign s t h g))
        (add_exact s t h g),
    checked m i.rd (sub s t) (to_int s -ℤ to_int t) _ (omega arith)
        (rw (has-bit_xor s t h g, has-bit_xor s (sub s t) h (omega arith)) (sub_sign s t h g))
        (sub_exact s t h g),
    checked m i.rt (add s i.extra) (to_int s +ℤ to_int i.extra) _ (omega arith)
        (rw (has-bit_xor s i.extra h f, has-bit_xor i.extra (add s i.extra) f (omega arith))
          (addi_sign s i.extra h f))
        (add_exact s i.extra h f),
  )
