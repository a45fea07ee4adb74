-- ===== src/Mips/Product.antt =====
-- What `Mult` computes: the product on 64 bits.
use native.Mathlib.Nat.{mul-le-mul_left, mul-le-mul_right, mod-eq_of_lt}
use project.Prelude.{
  ℕ, suc, ◌-◌, ◌*◌, ◌%◌, ◌^◌, ◌≤◌, ◌<◌, ◌≡◌, refl, ◌∙◌, sym, true, false, ◌||◌, ltb, leb, ◌==◌,
  if◌then◌else◌, arith, inl, inr, lt→ltb, ℤ, pos, negsuc, minus, ◌*ℤ◌, Bool-cases,
}
use project.Mips.Word.{word, sign_bit, neg, to_int}
use project.Mips.Rounds.{double, long, AreWords, rounds_lem}
use project.Mips.Mult.{Product, rounds, negate, mult}

mul_mono : {m n s t : ℕ} → m ≤ s → n ≤ t → m * n ≤ s * t
mul_mono {m} {n} {s} {t} h g =
    let left : m * n ≤ s * n = mul-le-mul_right n h in
    let right : s * n ≤ s * t = mul-le-mul_left s g in omega arith

lt_square : (a b : ℕ) → a < word → b < word → a * b < long
lt_square a b h g =
    let bound : a * b ≤ (word - 1) * (word - 1) =
      mul_mono {s = word - 1} {t = word - 1} (omega arith) (omega arith) in
    omega arith

product_lem :
    (a b : ℕ)
    → a < word
    → b < word
    → let s = rounds 32 a b 0 (record { lo = 0; hi = 0 }) in (double s.lo s.hi ≡ a * b) × AreWords s
product_lem a b h g =
    let (loop, w) =
      rounds_lem 32 a b 0 (record { lo = 0; hi = 0 }) (omega arith) h g (omega arith)
        (omega arith, omega arith) in
    (loop ∙ rw (mod-eq_of_lt h) (omega (arith, lt_square a b h g)), w)

zero_product : (a b : ℕ) → (a == 0 || b == 0) ≡ true → 0 ≡ a * b
zero_product a b e = ground arith

-- `MULTU`: on words below 2^32 the high and the low word make up the exact product of the operands.
pub mult_unsigned :
    (a b : ℕ) → a < word → b < word → double (mult a b false).lo (mult a b false).hi ≡ a * b
unfolding mult
mult_unsigned a b h g = elim (Bool-cases (a == 0 || b == 0)) [
  | inl e ↦ rw e (zero_product a b e)
  | inr e ↦ rw e (product_lem a b h g).0
]

negate_lem :
    (r : Product)
    → AreWords r
    → double (negate r).lo (negate r).hi ≡ (long - double r.lo r.hi) % long
negate_lem r h = ground arith

-- The 64-bit integer of a double word.
abbrev pub to_long : ℕ → ℤ
to_long v = if ltb v (2 ^ 63) then pos v else negsuc (long - 1 - v)

-- Magnitudes of `int` values.
small_product : (m n : ℕ) → m ≤ sign_bit → n ≤ sign_bit → m * n ≤ 2 ^ 62
small_product m n h g = mul_mono h g

module _ (m n : ℕ) (h : m ≤ sign_bit) (g : n ≤ sign_bit) where
  abbrev result : Product
  result = rounds 32 m n 0 (record { lo = 0; hi = 0 })

  positive : to_long (double result.lo result.hi) ≡ pos (m * n)
  positive =
      rw (product_lem m n (omega arith) (omega arith)).0
        (rw (lt→ltb (m * n) (2 ^ 63) (omega (arith, small_product m n h g))) refl)

  negative : to_long (double (negate result).lo (negate result).hi) ≡ minus (m * n)
  negative =
      let (p, w) = product_lem m n (omega arith) (omega arith) in
      rw (negate_lem result w, p) (ground (arith, small_product m n h g))

zero_left : (z : ℤ) → pos 0 ≡ pos 0 *ℤ z
zero_left (pos n) = ground arith
zero_left (negsuc n) = ground arith

zero_right : (z : ℤ) → pos 0 ≡ z *ℤ pos 0
zero_right (pos n) = ground arith
zero_right (negsuc n) = ground arith

zero_operand : (a b : ℕ) → (a == 0 || b == 0) ≡ true → pos 0 ≡ to_int a *ℤ to_int b
zero_operand a b e = elim (Bool-cases (a == 0)) [
  | inl z ↦ let nothing : a ≡ 0 = ground arith in rw nothing (zero_left (to_int b))
  | inr z ↦ let nothing : b ≡ 0 = ground arith in rw nothing (zero_right (to_int a))
]

-- What the sign tests say of a word.
above : (a : ℕ) → ltb a sign_bit ≡ true → leb sign_bit a ≡ false
above a e = ground arith

below : (a : ℕ) → ltb a sign_bit ≡ false → leb sign_bit a ≡ true
below a e = ground arith

-- The magnitude of a negative word.
size :
    (a : ℕ) → a < word → ltb a sign_bit ≡ false → (neg a ≡ suc (word - 1 - a)) × (neg a ≤ sign_bit)
size a h e = ground arith

-- `MULT`: on 32-bit words the high and the low word make up the 64-bit integer that is the exact
-- product of the operands read as `int`.
pub mult_signed :
    (a b : ℕ)
    → a < word
    → b < word
    → to_long (double (mult a b true).lo (mult a b true).hi) ≡ to_int a *ℤ to_int b
unfolding mult
mult_signed a b h g = elim (Bool-cases (a == 0 || b == 0)) [
  | inl e ↦ rw e (zero_operand a b e)
  | inr e ↦ elim (Bool-cases (ltb a sign_bit)) [
    | inl p ↦ elim (Bool-cases (ltb b sign_bit)) [
      | inl q ↦ rw (e, above a p, above b q, p, q) (positive a b (ground arith) (ground arith))
      | inr q ↦
          let (n, l) = size b g q in
          rw (e, above a p, below b q, p, q) (rw (sym n) (negative a (neg b) (ground arith) l))
    ]
    | inr p ↦
        let (m, k) = size a h p in
        elim (Bool-cases (ltb b sign_bit)) [
          | inl q ↦
              rw (e, below a p, above b q, p, q) (rw (sym m) (negative (neg a) b k (ground arith)))
          | inr q ↦
              let (n, l) = size b g q in
              rw (e, below a p, below b q, p, q) (rw (sym m, sym n) (positive (neg a) (neg b) k l))
        ]
  ]
]
