-- ===== src/UserMemory/Byte.antt =====
-- One byte of user memory: the access goes through, or it traps and the kernel halts.
use project.Prelude.{
  ℕ, ◌≡◌, refl, ◌⊎◌, inl, inr, ◌∙◌, true, false, Exec, ok, halted, ◌>>=◌, Returns,
}
use project.Machine.{Machine, Translation, physical, raises, read_at, write_at, read_mem, write_mem}
use project.Machine.Bytes.{length-store}
use project.Machine.Valid.{IsValid}
use project.Machine.Translate.{translate-Runs}
use project.UserMemory.{settled}

-- Halted, or returned with `P`.
abbrev pub HaltsOr {ℓ κ} : {A : Type ℓ} → (A → Type κ) → Exec A → Type (ℓ ⊔ κ)
HaltsOr P r = (r ≡ halted) ⊎ Returns P r

pub HaltsOr->>= {ℓ κ μ ν} :
    {A : Type ℓ} {B : Type μ} (P : A → Type κ) (Q : B → Type ν) (r : Exec A) (f : A → Exec B)
    → HaltsOr P r
    → ((a : A) → P a → HaltsOr Q (f a))
    → HaltsOr Q (r >>= f)
HaltsOr->>= P Q r f (inl h) next = inl (rw h refl)
HaltsOr->>= P Q r f (inr s) next = rw s.is_out (next s.out s.holds)

pub HaltsOr-ok {ℓ κ} : {A : Type ℓ} (P : A → Type κ) (a : A) → P a → HaltsOr P (ok a)
HaltsOr-ok P a p = inr (record { out = a; is_out = refl; holds = p })

abbrev pub Kept : ℕ × Machine → Type 0
Kept t = IsValid t.1

read_settles : (t : Translation × Machine) → IsValid t.1 → HaltsOr Kept (read_at 1 t >>= settled)
read_settles (raises e, m) v = inl refl
read_settles (physical p, m) v = HaltsOr-ok Kept _ v

pub read_byte : (m : Machine) (addr : ℕ) → IsValid m → HaltsOr Kept (read_mem m addr 1 >>= settled)
unfolding read_mem
read_byte m addr v =
    let r = translate-Runs m addr 1 false v refl in
    rw r.returns (read_settles (r.result, r.after) r.valid)

write_settles :
    (x : ℕ) (t : Translation × Machine) → IsValid t.1 → HaltsOr Kept (write_at 1 x t >>= settled)
write_settles x (raises e, m) v = inl refl
write_settles x (physical p, m) v = HaltsOr-ok Kept _ (record {
  memory = length-store 1 p x m.main_memory ∙ v.memory;
  registers = v.registers;
  one_table = v.one_table;
})

pub write_byte :
    (m : Machine) (addr x : ℕ) → IsValid m → HaltsOr Kept (write_mem m addr 1 x >>= settled)
unfolding write_mem
write_byte m addr x v =
    let r = translate-Runs m addr 1 true v refl in
    rw r.returns (write_settles x (r.result, r.after) r.valid)
