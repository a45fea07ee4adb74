-- ===== src/Mips/Mult.antt =====
-- `Mult` of machine/mipssim.cc: the double-length product by shifts and additions.
use project.Prelude.{
  ℕ, zero, suc, Bool, true, false, not, ◌&&◌, ◌||◌, ltb, leb, ◌==◌, if◌then◌else◌, bit_and, bit_or,
}
use project.Mips.Word.{sign_bit, add, neg, complement, has, shift_left, shift_right}

-- The variables of the loop.
pub record Product : Type 0 where
  pub lo : ℕ
  pub hi : ℕ

-- One addition of the shifted `b`.
abbrev pub accumulate : ℕ → ℕ → Product → Product
accumulate b_lo b_hi r =
    let lo = add r.lo b_lo in
    let carried = if ltb lo b_lo then add r.hi 1 else r.hi in
    record { lo = lo; hi = add carried b_hi }

-- The loop, with `left` rounds to go. `a` is shifted as an `int`.
unfoldable pub rounds : ℕ → ℕ → ℕ → ℕ → Product → Product
rounds zero a b_lo b_hi r = r
rounds (suc left) a b_lo b_hi r =
    let r' = if has a 1 then accumulate b_lo b_hi r else r in
    let b_hi' = if has b_lo 0x80000000 then bit_or (shift_left b_hi 1) 1 else shift_left b_hi 1 in
    let rest = rounds left (shift_right a 1) (shift_left b_lo 1) b_hi' r' in
    if has a 1 && bit_and a 0xfffffffe == 0 then r' else rest

-- The two's complement of the double word.
abbrev pub negate : Product → Product
negate r =
    let lo = add (complement r.lo) 1 in
    record { lo = lo; hi = if lo == 0 then add (complement r.hi) 1 else complement r.hi }

abbrev pub magnitude : ℕ → ℕ
magnitude a = if leb sign_bit a then neg a else a

-- `negative = !negative` for each operand below zero.
abbrev pub differ : Bool → Bool → Bool
differ true b = not b
differ false b = b

unfoldable pub mult : ℕ → ℕ → Bool → Product
mult a b signed =
    if a == 0 || b == 0
    then record { lo = 0; hi = 0 }
    else (let a' = if signed then magnitude a else a in
        let b' = if signed then magnitude b else b in
        let negative = signed && differ (leb sign_bit a) (leb sign_bit b) in
        let r = rounds 32 a' b' 0 (record { lo = 0; hi = 0 }) in if negative then negate r else r)
