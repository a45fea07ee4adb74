-- ===== src/Bits/Mask.antt =====
-- Masks of low bits and the sign bit, as remainders and comparisons.
use native.Mathlib.Nat.{two-pow-succ, one-le-pow, div-add-mod, div-div-eq-div-mul}
use project.Prelude.{
  ℕ, zero, suc, ◌+◌, ◌-◌, ◌*◌, ◌/◌, ◌%◌, ◌^◌, ◌<◌, bit_and, bit_or, ◌≡◌, ap, ◌∙◌, arith, leb,
}
use project.Bits.{test_bit, bit_and-halves, bit_or-halves, bit_and-zero, bit_or-zero}

pub mod_halves : (k v : ℕ) → v % 2 ^ suc k ≡ v % 2 + 2 * (v / 2 % 2 ^ k)
mod_halves k v =
    let quotient : v / 2 / 2 ^ k ≡ v / (2 * 2 ^ k) = div-div-eq-div-mul v 2 (2 ^ k) in
    let twice : 2 ^ suc k ≡ 2 * 2 ^ k = omega (arith, two-pow-succ k) in
    rw twice (
      omega (
        arith,
        div-add-mod (v / 2) (2 ^ k),
        div-add-mod v (2 * 2 ^ k),
        ap (λ (q : ℕ). 2 ^ k * q) quotient,
      ))

-- `a & (2^k - 1)` is the remainder.
pub bit_and-mask : (k a : ℕ) → bit_and a (2 ^ k - 1) ≡ a % 2 ^ k
bit_and-mask zero a = rw bit_and-halves (omega (arith, bit_and-zero (a / 2)))
bit_and-mask (suc k) a =
    let half : (2 ^ suc k - 1) / 2 ≡ 2 ^ k - 1 = omega (arith, two-pow-succ k) in
    let odd : (2 ^ suc k - 1) % 2 ≡ 1 = omega (arith, two-pow-succ k, one-le-pow k 2) in
    omega (
      arith,
      mod_halves k a,
      bit_and-mask k (a / 2),
      rw (half, odd) at (bit_and-halves a (2 ^ suc k - 1)),
    )

-- What lies above the low `k` bits does not matter to them.
pub mod_above : (k j a : ℕ) → (2 ^ (k + j) + a) % 2 ^ k ≡ a % 2 ^ k
mod_above zero j a = omega arith
mod_above (suc k) j a =
    let shape : suc k + j ≡ suc (k + j) = omega arith in
    rw (shape, two-pow-succ (k + j))
      (let half : (2 ^ (k + j) + 2 ^ (k + j) + a) / 2 ≡ 2 ^ (k + j) + a / 2 = omega arith in
        let even : (2 ^ (k + j) + 2 ^ (k + j) + a) % 2 ≡ a % 2 = omega arith in
        mod_halves k (2 ^ (k + j) + 2 ^ (k + j) + a)
        ∙ rw (half, even) (omega (arith, mod_halves k a, mod_above k j (a / 2))))

-- The sign bit of a word.
pub test_bit-top : (k a : ℕ) → a < 2 ^ suc k → test_bit a k ≡ leb (2 ^ k) a
unfolding test_bit
test_bit-top zero a h = ground arith
test_bit-top (suc k) a h =
    test_bit-top k (a / 2) (omega (arith, two-pow-succ (suc k))) ∙ ground (arith, two-pow-succ k)

-- `bit_or x 1` on an even number.
pub bit_or-one : (x : ℕ) → x % 2 ≡ 0 → bit_or x 1 ≡ x + 1
bit_or-one x h = omega (arith, bit_or-halves x 1, bit_or-zero (x / 2))
