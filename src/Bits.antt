-- ===== src/Bits.antt =====
-- The bits of a machine word, read one by one, and what `&`, `|` and masks do to them.
pub mod Mask
pub mod Field
use Prim.Native.Nat.{digits, differ, bit_and-bitwise, bit_or-bitwise, bit_xor-bitwise}
use native.Mathlib.Nat.{two-pow-succ, one-le-pow}
use project.Prelude.{
  ℕ, zero, suc, ◌+◌, ◌-◌, ◌*◌, ◌/◌, ◌%◌, ◌^◌, ◌≤◌, ◌<◌, min, max, bit_and, bit_or, bit_xor, ◌≡◌,
  refl, ◌∙◌, Bool, true, false, not, ◌&&◌, ◌||◌, arith, ◌==◌, if◌then◌else◌,
}

-- Bit `j` of `a`.
unfoldable pub test_bit : ℕ → ℕ → Bool
test_bit a zero = a % 2 == 1
test_bit a (suc j) = test_bit (a / 2) j

-- The digit recursion that the native operations stand for does not depend on its fuel.
module _ (z : ℕ → ℕ) (f : ℕ → ℕ → ℕ) where
  fuel_irrelevant : (a b m n : ℕ) → a ≤ min m n → digits z f m a b ≡ digits z f n a b
  fuel_irrelevant zero b zero zero le = refl
  fuel_irrelevant zero b (suc m) zero le = refl
  fuel_irrelevant zero b zero (suc n) le = refl
  fuel_irrelevant zero b (suc m) (suc n) le = refl
  fuel_irrelevant (suc a) b m zero le = absurd (omega arith)
  fuel_irrelevant (suc a) b zero (suc n) le = absurd (omega arith)
  fuel_irrelevant (suc a) b (suc m) (suc n) le =
      let rest = fuel_irrelevant (suc a / 2) (b / 2) m n (omega arith) in rw rest refl

-- One step of `&`: the lowest bit and the rest.
pub bit_and-halves : (a b : ℕ) → bit_and a b ≡ 2 * bit_and (a / 2) (b / 2) + min (a % 2) (b % 2)
bit_and-halves zero b = simp bit_and-bitwise (omega arith)
bit_and-halves (suc a) b =
    simp bit_and-bitwise
      (omega (arith, fuel_irrelevant (λ _. 0) min (suc a / 2) (b / 2) a (suc a / 2) (omega arith)))

pub bit_or-halves : (a b : ℕ) → bit_or a b ≡ 2 * bit_or (a / 2) (b / 2) + max (a % 2) (b % 2)
bit_or-halves zero b = simp bit_or-bitwise (omega arith)
bit_or-halves (suc a) b =
    simp bit_or-bitwise
      (omega (arith, fuel_irrelevant (λ y. y) max (suc a / 2) (b / 2) a (suc a / 2) (omega arith)))

differ_digits : (x y : ℕ) → x < 2 → y < 2 → differ x y ≡ (x + y) % 2
differ_digits zero y h g = omega arith
differ_digits (suc zero) zero h g = refl
differ_digits (suc zero) (suc zero) h g = refl
differ_digits (suc zero) (suc (suc y)) h g = absurd (omega arith)
differ_digits (suc (suc x)) y h g = absurd (omega arith)

pub bit_xor-halves : (a b : ℕ) → bit_xor a b ≡ 2 * bit_xor (a / 2) (b / 2) + (a % 2 + b % 2) % 2
bit_xor-halves zero b = simp bit_xor-bitwise (omega arith)
bit_xor-halves (suc a) b = simp bit_xor-bitwise (
    omega (
      arith,
      differ_digits (suc a % 2) (b % 2) (omega arith) (omega arith),
      fuel_irrelevant (λ y. y) differ (suc a / 2) (b / 2) a (suc a / 2) (omega arith),
    ))

pub test_bit-and : (j a b : ℕ) → test_bit (bit_and a b) j ≡ (test_bit a j && test_bit b j)
unfolding test_bit
test_bit-and zero a b = ground (arith, bit_and-halves a b)
test_bit-and (suc j) a b =
    let half : bit_and a b / 2 ≡ bit_and (a / 2) (b / 2) = omega (arith, bit_and-halves a b) in
    rw half (test_bit-and j (a / 2) (b / 2))

pub test_bit-or : (j a b : ℕ) → test_bit (bit_or a b) j ≡ (test_bit a j || test_bit b j)
unfolding test_bit
test_bit-or zero a b = ground (arith, bit_or-halves a b)
test_bit-or (suc j) a b =
    let half : bit_or a b / 2 ≡ bit_or (a / 2) (b / 2) = omega (arith, bit_or-halves a b) in
    rw half (test_bit-or j (a / 2) (b / 2))

pub test_bit-xor :
    (j a b : ℕ)
    → test_bit (bit_xor a b) j ≡ (if test_bit a j then not (test_bit b j) else test_bit b j)
unfolding test_bit
test_bit-xor zero a b = ground (arith, bit_xor-halves a b)
test_bit-xor (suc j) a b =
    let half : bit_xor a b / 2 ≡ bit_xor (a / 2) (b / 2) = omega (arith, bit_xor-halves a b) in
    rw half (test_bit-xor j (a / 2) (b / 2))

pub zero-test_bit : (j : ℕ) → test_bit 0 j ≡ false
unfolding test_bit
zero-test_bit zero = refl
zero-test_bit (suc j) = zero-test_bit j

-- `1 << k` has the one bit `k`.
pub test_bit-pow : (k j : ℕ) → test_bit (2 ^ k) j ≡ (k == j)
unfolding test_bit
test_bit-pow zero zero = refl
test_bit-pow zero (suc j) = zero-test_bit j ∙ ground arith
test_bit-pow (suc k) zero = ground (arith, two-pow-succ k)
test_bit-pow (suc k) (suc j) =
    let half : 2 ^ suc k / 2 ≡ 2 ^ k = omega (arith, two-pow-succ k) in
    rw half (test_bit-pow k j ∙ ground arith)

ones : (n j : ℕ) → j < n → test_bit (2 ^ n - 1) j ≡ true
unfolding test_bit
ones zero j h = absurd (omega arith)
ones (suc n) zero h = ground (arith, two-pow-succ n, one-le-pow n 2)
ones (suc n) (suc j) h =
    let half : (2 ^ suc n - 1) / 2 ≡ 2 ^ n - 1 = omega (arith, two-pow-succ n) in
    rw half (ones n j (omega arith))

pub pow-lt : (k n : ℕ) → k < n → 2 ^ k < 2 ^ n
pow-lt k zero h = absurd (omega arith)
pow-lt zero (suc n) h = omega (arith, two-pow-succ n, one-le-pow n 2)
pow-lt (suc k) (suc n) h = omega (arith, two-pow-succ n, two-pow-succ k, pow-lt k n (omega arith))

-- `~(1 << k)` in a word of `n` bits has every bit but `k`.
pub test_bit-complement :
    (n k j : ℕ) → k < n → j < n → test_bit (2 ^ n - 1 - 2 ^ k) j ≡ not (k == j)
unfolding test_bit
test_bit-complement zero k j h g = absurd (omega arith)
test_bit-complement (suc n) zero zero h g = ground (arith, two-pow-succ n, one-le-pow n 2)
test_bit-complement (suc n) zero (suc j) h g =
    let half : (2 ^ suc n - 1 - 1) / 2 ≡ 2 ^ n - 1 = omega (arith, two-pow-succ n) in
    rw half (ones n j (omega arith) ∙ ground arith)
test_bit-complement (suc n) (suc k) zero h g =
    ground (arith, two-pow-succ n, two-pow-succ k, pow-lt k n (omega arith))
test_bit-complement (suc n) (suc k) (suc j) h g =
    let half : (2 ^ suc n - 1 - 2 ^ suc k) / 2 ≡ 2 ^ n - 1 - 2 ^ k =
      omega (arith, two-pow-succ n, two-pow-succ k, pow-lt k n (omega arith)) in
    rw half (test_bit-complement n k j (omega arith) (omega arith) ∙ ground arith)

pub bit_and-le : (n a b : ℕ) → a ≤ n → bit_and a b ≤ a
bit_and-le zero a b h = ground (arith, bit_and-bitwise a b, fuel_irrelevant (λ _. 0) min a 0 a b)
bit_and-le (suc n) a b h =
    omega (arith, bit_and-halves a b, bit_and-le n (a / 2) (b / 2) (omega arith))

low_digits : (n a : ℕ) → a ≤ n → bit_or a 0 ≡ a
low_digits zero zero h = refl
low_digits zero (suc a) h = absurd (omega arith)
low_digits (suc n) zero h = refl
low_digits (suc n) (suc a) h =
    omega (arith, bit_or-halves (suc a) 0, low_digits n (suc a / 2) (omega arith))

halve_to_zero : (n a : ℕ) → a ≤ n → bit_and a 0 ≡ 0
halve_to_zero zero a h = omega (arith, bit_and-le 0 a 0 h)
halve_to_zero (suc n) zero h = refl
halve_to_zero (suc n) (suc a) h =
    omega (arith, bit_and-halves (suc a) 0, halve_to_zero n (suc a / 2) (omega arith))

pub bit_and-zero : (a : ℕ) → bit_and a 0 ≡ 0
bit_and-zero a = halve_to_zero a a (omega arith)

-- `a & (1 << k)` is zero exactly when bit `k` is clear.
pub bit_and-pow : (k a : ℕ) → bit_and a (2 ^ k) ≡ (if test_bit a k then 2 ^ k else 0)
unfolding test_bit
bit_and-pow zero a = ground (arith, bit_and-halves a 1, bit_and-zero (a / 2))
bit_and-pow (suc k) a =
    let half : 2 ^ suc k / 2 ≡ 2 ^ k = omega (arith, two-pow-succ k) in
    ground (arith, rw half at (bit_and-halves a (2 ^ suc k)), two-pow-succ k, bit_and-pow k (a / 2))

pub bit_or-lt : (n a b : ℕ) → a < 2 ^ n → b < 2 ^ n → bit_or a b < 2 ^ n
bit_or-lt zero a b h g = ground (arith, bit_or-halves a b)
bit_or-lt (suc n) a b h g = omega (
  arith,
  two-pow-succ n,
  bit_or-halves a b,
  bit_or-lt n (a / 2) (b / 2) (omega (arith, two-pow-succ n)) (omega (arith, two-pow-succ n)),
)

pub bit_or-zero : (a : ℕ) → bit_or a 0 ≡ a
bit_or-zero a = low_digits a a (omega arith)
