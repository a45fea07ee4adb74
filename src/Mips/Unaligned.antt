-- ===== src/Mips/Unaligned.antt =====
-- What LWL and LWR put together: a word that crosses a word boundary is put together of two.
use native.Mathlib.Nat.{pow-suc, mul_assoc, mul_left_comm}
use project.Prelude.{
  ℕ, zero, suc, ◌+◌, ◌-◌, ◌*◌, ◌/◌, ◌%◌, ◌^◌, ◌<◌, ◌≡◌, refl, ◌∙◌, arith, bit_and, ◌==◌, List,
  get_or, ◌⊎◌, inl, inr, Bool-cases,
}
use project.Bits.Mask.{bit_and-mask}
use project.Bits.Field.{bit_and-field, bit_or-disjoint, bit_or-joint}
use project.Machine.Bytes.{load}
use project.Mips.Word.{word, shift_left, shift_right}
use project.Mips.Cpu.{merge_lwl, merge_lwr}

-- The low `n` bits of one number below the bits of another.
abbrev below : ℕ → ℕ → ℕ → ℕ
below n low high = low % 2 ^ n + 2 ^ n * high

module _ (v old : ℕ) (h : v < word) (g : old < word) where
  lwl_one : merge_lwl 2 v old ≡ below 8 old (v % 2 ^ 24)
  unfolding merge_lwl
  lwl_one =
      let moved : shift_left v 8 ≡ 2 ^ 8 * (v % 2 ^ 24) = omega arith in
      rw (moved, bit_and-mask 8 old) (bit_or-disjoint 8 (old % 2 ^ 8) (v % 2 ^ 24) (omega arith))

  lwl_two : merge_lwl 1 v old ≡ below 16 old (v % 2 ^ 16)
  unfolding merge_lwl
  lwl_two =
      let moved : shift_left v 16 ≡ 2 ^ 16 * (v % 2 ^ 16) = omega arith in
      rw (moved, bit_and-mask 16 old) (bit_or-disjoint 16 (old % 2 ^ 16) (v % 2 ^ 16) (omega arith))

  lwl_three : merge_lwl 0 v old ≡ below 24 old (v % 2 ^ 8)
  unfolding merge_lwl
  lwl_three =
      let moved : shift_left v 24 ≡ 2 ^ 24 * (v % 2 ^ 8) = omega arith in
      rw (moved, bit_and-mask 24 old) (bit_or-disjoint 24 (old % 2 ^ 24) (v % 2 ^ 8) (omega arith))

  lwr_three : merge_lwr 3 v old ≡ below 8 (v / 2 ^ 24) (old / 2 ^ 8)
  unfolding merge_lwr
  lwr_three =
      let kept : bit_and old 0xffffff00 ≡ 2 ^ 8 * (old / 2 ^ 8) =
        bit_and-field 8 24 old ∙ omega arith in
      let moved : bit_and (shift_right v 24) 0xff ≡ v / 2 ^ 24 % 2 ^ 8 =
        bit_and-mask 8 (shift_right v 24) ∙ ground arith in
      rw (kept, moved) (bit_or-joint 8 (v / 2 ^ 24 % 2 ^ 8) (old / 2 ^ 8) (omega arith))

  lwr_two : merge_lwr 2 v old ≡ below 16 (v / 2 ^ 16) (old / 2 ^ 16)
  unfolding merge_lwr
  lwr_two =
      let kept : bit_and old 0xffff0000 ≡ 2 ^ 16 * (old / 2 ^ 16) =
        bit_and-field 16 16 old ∙ omega arith in
      let moved : bit_and (shift_right v 16) 0xffff ≡ v / 2 ^ 16 % 2 ^ 16 =
        bit_and-mask 16 (shift_right v 16) ∙ ground arith in
      rw (kept, moved) (bit_or-joint 16 (v / 2 ^ 16 % 2 ^ 16) (old / 2 ^ 16) (omega arith))

  lwr_one : merge_lwr 1 v old ≡ below 24 (v / 2 ^ 8) (old / 2 ^ 24)
  unfolding merge_lwr
  lwr_one =
      let kept : bit_and old 0xff000000 ≡ 2 ^ 24 * (old / 2 ^ 24) =
        bit_and-field 24 8 old ∙ omega arith in
      let moved : bit_and (shift_right v 8) 0xffffff ≡ v / 2 ^ 8 % 2 ^ 24 =
        bit_and-mask 24 (shift_right v 8) ∙ ground arith in
      rw (kept, moved) (bit_or-joint 24 (v / 2 ^ 8 % 2 ^ 24) (old / 2 ^ 24) (omega arith))

-- Every element is a byte.
abbrev pub AreBytes : List ℕ → Type 0
AreBytes mem = (p : ℕ) → get_or mem p 0 < 256

pub load-lt : (mem : List ℕ) → AreBytes mem → (n p : ℕ) → load mem p n < 256 ^ n
unfolding load
load-lt mem h zero p = omega arith
load-lt mem h (suc n) p = omega (arith, load-lt mem h n (p + 1), h p, pow-suc 256 n)

-- A load in two parts.
load_parts :
    (mem : List ℕ) (m n p : ℕ) → load mem p (m + n) ≡ load mem p m + 256 ^ m * load mem (p + m) n
unfolding load
load_parts mem zero n p =
    let count : 0 + n ≡ n = omega arith in
    let start : p + 0 ≡ p = omega arith in rw (count, start) (omega arith)
load_parts mem (suc m) n p =
    let count : suc m + n ≡ suc (m + n) = omega arith in
    let start : p + suc m ≡ p + 1 + m = omega arith in
    let rest = load mem (p + 1 + m) n in
    rw (count, start, pow-suc 256 m)
      (omega (
        arith,
        load_parts mem m n (p + 1),
        mul_assoc (256 ^ m) 256 rest,
        mul_left_comm (256 ^ m) 256 rest,
      ))

rest_cases : (a : ℕ) → (a % 4 ≡ 0) ⊎ ((a % 4 ≡ 1) ⊎ ((a % 4 ≡ 2) ⊎ (a % 4 ≡ 3)))
rest_cases a = elim (Bool-cases (a % 4 == 0)) [
  | inl e ↦ inl (ground arith)
  | inr e ↦ elim (Bool-cases (a % 4 == 1)) [
    | inl f ↦ inr (inl (ground arith))
    | inr f ↦ elim (Bool-cases (a % 4 == 2)) [
      | inl t ↦ inr (inr (inl (ground arith)))
      | inr t ↦ inr (inr (inr (ground arith)))
    ]
  ]
]

module _ (mem : List ℕ) (old : ℕ) (h : AreBytes mem) (g : old < word) where
  from_1 :
      (p addr q : ℕ)
      → addr ≡ p + 1
      → q ≡ p + 4
      → merge_lwl 0 (load mem q 4) (merge_lwr 1 (load mem p 4) old) ≡ load mem addr 4
  from_1 p addr q e f =
      rw (e, f)
        (let shape : p + 1 + 3 ≡ p + 4 = omega arith in
          let first = load_parts mem 1 3 p in
          let second = load_parts mem 1 3 (p + 4) in
          let both = rw shape at (load_parts mem 3 1 (p + 1)) in
          let low = load-lt mem h 1 p in
          let high = load-lt mem h 1 (p + 4) in
          let middle = load-lt mem h 3 (p + 1) in
          let top = load-lt mem h 3 (p + 4 + 1) in
          lwl_three (load mem (p + 4) 4) (merge_lwr 1 (load mem p 4) old) (omega arith)
            (omega (arith, lwr_one (load mem p 4) old (omega arith) g))
          ∙ omega (arith, lwr_one (load mem p 4) old (omega arith) g))

  from_2 :
      (p addr q : ℕ)
      → addr ≡ p + 2
      → q ≡ p + 4
      → merge_lwl 1 (load mem q 4) (merge_lwr 2 (load mem p 4) old) ≡ load mem addr 4
  from_2 p addr q e f =
      rw (e, f)
        (let shape : p + 2 + 2 ≡ p + 4 = omega arith in
          let first = load_parts mem 2 2 p in
          let second = load_parts mem 2 2 (p + 4) in
          let both = rw shape at (load_parts mem 2 2 (p + 2)) in
          let low = load-lt mem h 2 p in
          let high = load-lt mem h 2 (p + 4) in
          let middle = load-lt mem h 2 (p + 2) in
          let top = load-lt mem h 2 (p + 4 + 2) in
          lwl_two (load mem (p + 4) 4) (merge_lwr 2 (load mem p 4) old) (omega arith)
            (omega (arith, lwr_two (load mem p 4) old (omega arith) g))
          ∙ omega (arith, lwr_two (load mem p 4) old (omega arith) g))

  from_3 :
      (p addr q : ℕ)
      → addr ≡ p + 3
      → q ≡ p + 4
      → merge_lwl 2 (load mem q 4) (merge_lwr 3 (load mem p 4) old) ≡ load mem addr 4
  from_3 p addr q e f =
      rw (e, f)
        (let shape : p + 3 + 1 ≡ p + 4 = omega arith in
          let first = load_parts mem 3 1 p in
          let second = load_parts mem 3 1 (p + 4) in
          let both = rw shape at (load_parts mem 1 3 (p + 3)) in
          let low = load-lt mem h 3 p in
          let high = load-lt mem h 3 (p + 4) in
          let middle = load-lt mem h 1 (p + 3) in
          let top = load-lt mem h 1 (p + 4 + 3) in
          lwl_one (load mem (p + 4) 4) (merge_lwr 3 (load mem p 4) old) (omega arith)
            (omega (arith, lwr_three (load mem p 4) old (omega arith) g))
          ∙ omega (arith, lwr_three (load mem p 4) old (omega arith) g))

  pub merge_unaligned :
      (addr : ℕ)
      → merge_lwl
          ((addr + 3) % 4)
          (load mem (addr + 3 - (addr + 3) % 4) 4)
          (merge_lwr (addr % 4) (load mem (addr - addr % 4) 4) old)
        ≡ load mem addr 4
  unfolding merge_lwl merge_lwr
  merge_unaligned addr = elim (rest_cases addr) [
    | inl r ↦
        let r' : (addr + 3) % 4 ≡ 3 = omega arith in
        let q : addr + 3 - 3 ≡ addr = omega arith in rw (r, r', q) refl
    | inr (inl r) ↦
        let r' : (addr + 3) % 4 ≡ 0 = omega arith in
        rw (r, r') (from_1 (addr - 1) addr (addr + 3 - 0) (omega arith) (omega arith))
    | inr (inr (inl r)) ↦
        let r' : (addr + 3) % 4 ≡ 1 = omega arith in
        rw (r, r') (from_2 (addr - 2) addr (addr + 3 - 1) (omega arith) (omega arith))
    | inr (inr (inr r)) ↦
        let r' : (addr + 3) % 4 ≡ 2 = omega arith in
        rw (r, r') (from_3 (addr - 3) addr (addr + 3 - 2) (omega arith) (omega arith))
  ]
