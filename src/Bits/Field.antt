-- ===== src/Bits/Field.antt =====
-- Fields of adjacent bits: cut out by `&`, put together by `|`.
use Prim.Native.Nat.{bit_or-bitwise}
use native.Mathlib.Nat.{add-mul, two-pow-succ, div-div-eq-div-mul}
use project.Prelude.{
  ℕ, zero, suc, ◌+◌, ◌-◌, ◌*◌, ◌/◌, ◌%◌, ◌^◌, ◌<◌, bit_and, bit_or, ◌≡◌, sym, ◌∙◌, ap, arith,
}
use project.Bits.{bit_and-halves, bit_or-halves, bit_or-zero}
use project.Bits.Mask.{bit_and-mask}

zero-bit_or : (b : ℕ) → bit_or 0 b ≡ b
zero-bit_or b = simp bit_or-bitwise

twice : (k b : ℕ) → 2 ^ suc k * b ≡ 2 * (2 ^ k * b)
twice k b = rw (two-pow-succ k) (omega (arith, add-mul (2 ^ k) (2 ^ k) b))

-- `|` of numbers without a common bit.
pub bit_or-disjoint : (k a b : ℕ) → a < 2 ^ k → bit_or a (2 ^ k * b) ≡ a + 2 ^ k * b
bit_or-disjoint zero a b h =
    let nothing : a ≡ 0 = omega arith in rw nothing (zero-bit_or _ ∙ omega arith)
bit_or-disjoint (suc k) a b h =
    let half : 2 * (2 ^ k * b) / 2 ≡ 2 ^ k * b = omega arith in
    let rest = bit_or-disjoint k (a / 2) b (omega (arith, two-pow-succ k)) in
    rw (twice k b) (omega (arith, rw half at (bit_or-halves a (2 * (2 ^ k * b))), rest))

pub bit_or-joint : (k a b : ℕ) → a < 2 ^ k → bit_or (2 ^ k * b) a ≡ a + 2 ^ k * b
bit_or-joint zero a b h =
    let nothing : a ≡ 0 = omega arith in rw nothing (bit_or-zero _ ∙ omega arith)
bit_or-joint (suc k) a b h =
    let half : 2 * (2 ^ k * b) / 2 ≡ 2 ^ k * b = omega arith in
    let rest = bit_or-joint k (a / 2) b (omega (arith, two-pow-succ k)) in
    rw (twice k b) (omega (arith, rw half at (bit_or-halves (2 * (2 ^ k * b)) a), rest))

-- `&` with `j` bits from bit `k` on.
pub bit_and-field : (k j a : ℕ) → bit_and a (2 ^ k * (2 ^ j - 1)) ≡ 2 ^ k * (a / 2 ^ k % 2 ^ j)
bit_and-field zero j a =
    let same : 1 * (2 ^ j - 1) ≡ 2 ^ j - 1 = omega arith in
    let whole : a / 1 ≡ a = omega arith in rw (same, whole) (bit_and-mask j a ∙ omega arith)
bit_and-field (suc k) j a =
    let half : 2 * (2 ^ k * (2 ^ j - 1)) / 2 ≡ 2 ^ k * (2 ^ j - 1) = omega arith in
    let digits : a / 2 / 2 ^ k ≡ a / 2 ^ suc k =
      rw (two-pow-succ k) (div-div-eq-div-mul a 2 (2 ^ k) ∙ ap (λ (m : ℕ). a / m) (omega arith)) in
    rw (twice k (2 ^ j - 1), twice k (a / 2 ^ suc k % 2 ^ j), sym digits)
      (omega (
        arith,
        rw half at (bit_and-halves a (2 * (2 ^ k * (2 ^ j - 1)))),
        bit_and-field k j (a / 2),
      ))
