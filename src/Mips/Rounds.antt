-- ===== src/Mips/Rounds.antt =====
-- The loop of `Mult`: what its rounds add up to.
use native.Mathlib.Nat.{
  mod-eq_of_lt, two-pow-succ, one-le-pow, add-mul, mul_assoc, mul-add, mul_left_comm, div-add-mod,
  mul-add-mod_self_left,
}
use project.Prelude.{
  ℕ, zero, suc, ◌+◌, ◌-◌, ◌*◌, ◌/◌, ◌%◌, ◌^◌, ◌≤◌, ◌<◌, ◌≡◌, refl, ◌∙◌, sym, ap, ◌&&◌, ltb, leb,
  ◌==◌, if◌then◌else◌, bit_and, bit_or, arith, inl, inr, Bool-cases,
}
use project.Bits.{bit_and-halves, bit_and-pow}
use project.Bits.Mask.{mod_halves, bit_and-mask, mod_above, test_bit-top, bit_or-one}
use project.Mips.Word.{word, sign_bit, has, shift_left, shift_right}
use project.Mips.Mult.{Product, accumulate, rounds}

-- The number that a double word stands for.
abbrev pub double : ℕ → ℕ → ℕ
double lo hi = lo + word * hi

abbrev pub long : ℕ
long = 2 ^ 64

has_odd : (a : ℕ) → has a 1 ≡ (a % 2 == 1)
has_odd a = ground (arith, bit_and-mask 1 a)

has_top : (a : ℕ) → a < word → has a 0x80000000 ≡ leb sign_bit a
has_top a h = ground (arith, bit_and-pow 31 a, test_bit-top 31 a h)

no_more : (a : ℕ) → a < word → (bit_and a 0xfffffffe == 0) ≡ ltb a 2
no_more a h = ground (arith, bit_and-halves a 0xfffffffe, bit_and-mask 31 (a / 2))

-- The addition carries into the high word.
accumulate_lem :
    (b_lo b_hi : ℕ) (r : Product)
    → b_lo < word
    → r.lo < word
    → let s = accumulate b_lo b_hi r in
      (double s.lo s.hi ≡ (double r.lo r.hi + double b_lo b_hi) % long)
      × (s.lo < word)
      × (s.hi < word)
accumulate_lem b_lo b_hi r g h = ground arith

-- A round of the shifting of `b`.
shifted : (b_lo b_hi : ℕ) → b_lo < word → ℕ
shifted b_lo b_hi g =
    if has b_lo 0x80000000 then bit_or (shift_left b_hi 1) 1 else shift_left b_hi 1

shifted_lem :
    (b_lo b_hi : ℕ) (g : b_lo < word)
    → (double (shift_left b_lo 1) (shifted b_lo b_hi g) ≡ 2 * double b_lo b_hi % long)
      × (shifted b_lo b_hi g < word)
unfolding shifted
shifted_lem b_lo b_hi g =
    ground (arith, has_top b_lo g, bit_or-one (shift_left b_hi 1) (omega arith))

shift_mod : (k a : ℕ) → k ≤ 31 → a < word → shift_right a 1 % 2 ^ k ≡ a / 2 % 2 ^ k
shift_mod k a h g = elim (Bool-cases (ltb a sign_bit)) [
  | inl e ↦ rw e refl
  | inr e ↦ rw e (
      let whole : k + (31 - k) ≡ 31 = omega arith in
      let top : 2 ^ (k + (31 - k)) ≡ 2147483648 = ap (λ (i : ℕ). 2 ^ i) whole in
      rw top at (mod_above k (31 - k) (a / 2)))
]

regroup : (x y q M : ℕ) → (x % M + q * (y % M)) % M ≡ (x + q * y) % M
regroup x y q M =
    let parts : x + q * y ≡ M * (x / M + q * (y / M)) + (x % M + q * (y % M)) = omega (
      arith,
      div-add-mod x M,
      ap (λ (t : ℕ). q * t) (div-add-mod y M),
      mul-add q (y % M) (M * (y / M)),
      mul_left_comm q M (y / M),
      mul-add M (x / M) (q * (y / M)),
    ) in
    rw parts (sym (mul-add-mod_self_left M (x / M + q * (y / M)) (x % M + q * (y % M))))

assemble :
    (d q R B : ℕ) → ((R + d * B) % long + q * (2 * B % long)) % long ≡ (R + (d + 2 * q) * B) % long
assemble d q R B =
    let products : R + d * B + q * (2 * B) ≡ R + (d + 2 * q) * B =
      omega (arith, add-mul d (2 * q) B, mul_assoc 2 q B, mul_left_comm q 2 B) in
    regroup (R + d * B) (2 * B) q long ∙ ap (λ (t : ℕ). t % long) products

-- What a round adds.
added : (a b_lo b_hi : ℕ) (r : Product) → Product
added a b_lo b_hi r = if has a 1 then accumulate b_lo b_hi r else r

abbrev pub AreWords : Product → Type 0
AreWords r = (r.lo < word) × (r.hi < word)

added_lem :
    (a b_lo b_hi : ℕ) (r : Product)
    → b_lo < word
    → AreWords r
    → let s = added a b_lo b_hi r in
      (double s.lo s.hi ≡ (double r.lo r.hi + a % 2 * double b_lo b_hi) % long) × AreWords s
unfolding added
added_lem a b_lo b_hi r g h = elim (Bool-cases (has a 1)) [
  | inl e ↦
      let odd : a % 2 ≡ 1 = ground (arith, has_odd a) in
      rw (e, odd) (ground (arith, accumulate_lem b_lo b_hi r g h.0))
  | inr e ↦ let even : a % 2 ≡ 0 = ground (arith, has_odd a) in rw (e, even) (omega arith)
]

one_mod : (k : ℕ) → 1 % 2 ^ suc k ≡ 1
one_mod k = mod-eq_of_lt (omega (arith, two-pow-succ k, one-le-pow k 2))

-- With `left` rounds to go, the low `left` bits of `a` times `b` are still to be added.
pub rounds_lem :
    (left a b_lo b_hi : ℕ) (r : Product)
    → left ≤ 32
    → a < word
    → b_lo < word
    → b_hi < word
    → AreWords r
    → let s = rounds left a b_lo b_hi r in
      (double s.lo s.hi ≡ (double r.lo r.hi + a % 2 ^ left * double b_lo b_hi) % long) × AreWords s
unfolding rounds added shifted
rounds_lem zero a b_lo b_hi r l h hb hbh hr =
    let gone : a % 2 ^ 0 ≡ 0 = omega arith in rw gone (omega arith)
rounds_lem (suc left) a b_lo b_hi r l h hb hbh hr =
    let (sum, w) = added_lem a b_lo b_hi r hb hr in
    elim (Bool-cases (has a 1 && bit_and a 0xfffffffe == 0)) [
      | inl e ↦ rw e (
          let one : a ≡ 1 = ground (arith, has_odd a, no_more a h) in
          let low : a % 2 ^ suc left ≡ a % 2 = rw one (one_mod left) in rw low (sum, w))
      | inr e ↦ rw e (
          let (twice, wb) = shifted_lem b_lo b_hi hb in
          let ih =
            rounds_lem left (shift_right a 1) (shift_left b_lo 1) (shifted b_lo b_hi hb)
              (added a b_lo b_hi r) (omega arith) (ground arith) (omega arith) wb w in
          (
            ih.0
                ∙ rw (sum, twice, shift_mod left a (omega arith) h, mod_halves left a)
                    (assemble (a % 2) (a / 2 % 2 ^ left) (double r.lo r.hi) (double b_lo b_hi)),
            ih.1,
          ))
    ]
