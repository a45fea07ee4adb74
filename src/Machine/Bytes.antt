-- ===== src/Machine/Bytes.antt =====
-- Little-endian numbers of several bytes in memory.
use native.Mathlib.Nat.{pow-suc, mul_comm, div-add-mod, div-div-eq-div-mul}
use project.Prelude.{
  ℕ, zero, suc, ◌+◌, ◌*◌, ◌/◌, ◌%◌, ◌^◌, ◌≤◌, ◌<◌, ◌≡◌, refl, ◌⊎◌, inl, sym, ◌∙◌, ap, ap₂, arith,
  List, length, get_or, set, length-set, get_or-set_self, get_or-set_ne,
}

-- The `n` bytes from address `p` on, the lowest first.
unfoldable pub load : List ℕ → ℕ → ℕ → ℕ
load mem p zero = 0
load mem p (suc n) = get_or mem p 0 + 256 * load mem (p + 1) n

unfoldable pub store : List ℕ → ℕ → ℕ → ℕ → List ℕ
store mem p zero v = mem
store mem p (suc n) v = store (set mem p (v % 256)) (p + 1) n (v / 256)

pub length-store : (n p v : ℕ) (mem : List ℕ) → length (store mem p n v) ≡ length mem
unfolding store
length-store zero p v mem = refl
length-store (suc n) p v mem =
    length-store n (p + 1) (v / 256) (set mem p (v % 256)) ∙ length-set mem p (v % 256)

-- A byte outside the range that is written stays.
pub store_outside :
    (n p v j : ℕ) (mem : List ℕ)
    → (j < p) ⊎ (p + n ≤ j)
    → get_or (store mem p n v) j 0 ≡ get_or mem j 0
unfolding store
store_outside zero p v j mem h = refl
store_outside (suc n) p v j mem h =
    store_outside n (p + 1) (v / 256) j (set mem p (v % 256)) (omega arith)
    ∙ get_or-set_ne mem p j (v % 256) 0 (omega arith)

-- So a number that lies elsewhere stays.
pub load-store_disjoint :
    (k n p q v : ℕ) (mem : List ℕ)
    → (q + k ≤ p) ⊎ (p + n ≤ q)
    → load (store mem p n v) q k ≡ load mem q k
unfolding load
load-store_disjoint zero n p q v mem h = refl
load-store_disjoint (suc k) n p q v mem h =
    ap₂ (λ (a b : ℕ). a + 256 * b) (store_outside n p v q mem (omega arith))
      (load-store_disjoint k n p (q + 1) v mem (omega arith))

mod_split : (v k : ℕ) → v % (256 * k) ≡ v % 256 + 256 * (v / 256 % k)
mod_split v k = omega (
  arith,
  div-add-mod (v / 256) k,
  div-add-mod v (256 * k),
  ap (λ (q : ℕ). k * q) (div-div-eq-div-mul v 256 k),
)

-- What was stored is loaded, cut to its bytes.
pub load-store_self :
    (n p v : ℕ) (mem : List ℕ) → p + n ≤ length mem → load (store mem p n v) p n ≡ v % 256 ^ n
unfolding load store
load-store_self zero p v mem h = omega arith
load-store_self (suc n) p v mem h =
    rw
      (
        store_outside n (p + 1) (v / 256) p (set mem p (v % 256)) (inl (omega arith)),
        get_or-set_self mem p (v % 256) 0 (omega arith),
        load-store_self n (p + 1) (v / 256) (set mem p (v % 256))
            (omega (arith, length-set mem p (v % 256))),
        pow-suc 256 n,
        mul_comm (256 ^ n) 256,
      )
      (sym (mod_split v (256 ^ n)))
