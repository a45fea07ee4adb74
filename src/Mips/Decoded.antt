-- ===== src/Mips/Decoded.antt =====
-- What `Decode` leaves: register numbers of five bits, and an operation that the `switch` has.
use project.Prelude.{
  ℕ, zero, suc, ◌/◌, ◌^◌, ◌<◌, List, [], ◌∷◌, inl, inr, arith, ◌==◌, bit_and, get_or, Bool-cases,
}
use project.Bits.Mask.{bit_and-mask}
use project.Mips.OpCode.{
  OpCode, Format, op_table, special_table, op_rfe, special, bcond, op_unimp, ifmt,
}
use project.Mips.Decode.{Instruction, decode, branch_of, refine}

-- A case of the `switch` other than its default.
abbrev pub IsExecutable : OpCode → Type 0
IsExecutable op_rfe = ⊥
IsExecutable special = ⊥
IsExecutable bcond = ⊥
IsExecutable _ = Unit {0}

abbrev IsListed : OpCode → Type 0
IsListed op_rfe = ⊥
IsListed _ = Unit {0}

module _ {ℓ κ} {A : Type ℓ} (P : A → Type κ) where
  abbrev All : List A → Type κ
  All [] = Unit
  All (x ∷ xs) = P x × All xs

  get_or-All : (xs : List A) (i : ℕ) (d : A) → All xs → P d → P (get_or xs i d)
  get_or-All [] i d h p = p
  get_or-All (x ∷ xs) zero d h p = h.0
  get_or-All (x ∷ xs) (suc i) d h p = get_or-All xs i d h.1 p

branch_of-IsExecutable : (i : ℕ) → IsExecutable (branch_of i)
branch_of-IsExecutable i = elim (Bool-cases (i == 0)) [
  | inl e ↦ rw e tt
  | inr e ↦ elim (Bool-cases (i == 0x10000)) [
    | inl f ↦ rw (e, f) tt
    | inr f ↦ elim (Bool-cases (i == 0x100000)) [
      | inl g ↦ rw (e, f, g) tt
      | inr g ↦ elim (Bool-cases (i == 0x110000)) [
        | inl k ↦ rw (e, f, g, k) tt
        | inr k ↦ rw (e, f, g, k) tt
      ]
    ]
  ]
]

special_table-All : All IsExecutable special_table
special_table-All = ground arith

op_table-All : All (λ (e : OpCode × Format). IsListed e.0) op_table
op_table-All = ground arith

refine-IsExecutable : (v : ℕ) (c : OpCode) → IsListed c → IsExecutable (refine v c)
refine-IsExecutable v special h =
    get_or-All IsExecutable special_table (bit_and v 0x3f) op_unimp special_table-All tt
refine-IsExecutable v bcond h = branch_of-IsExecutable (bit_and v 0x1f0000)
refine-IsExecutable v op_rfe h = h
refine-IsExecutable v _ h = tt

pub record IsDecoded (i : Instruction) : Type 0 where
  pub rs : i.rs < 32
  pub rt : i.rt < 32
  pub rd : i.rd < 32
  pub executable : IsExecutable i.op_code

five_bits : (x : ℕ) → bit_and x 0x1f < 32
five_bits x = omega (arith, bit_and-mask 5 x)

-- Whatever the word that is fetched, `Decode` gives three register numbers below 32 and an
-- operation that the `switch` of `OneInstruction` has a case for.
pub decode-IsDecoded : (v : ℕ) → IsDecoded (decode v)
unfolding decode
decode-IsDecoded v = record {
  rs = five_bits (v / 2 ^ 21);
  rt = five_bits (v / 2 ^ 16);
  rd = five_bits (v / 2 ^ 11);
  executable = refine-IsExecutable v _ (
      get_or-All (λ (e : OpCode × Format). IsListed e.0) op_table (bit_and (v / 2 ^ 26) 0x3f)
        (op_unimp, ifmt) op_table-All tt);
}
