-- ===== src/SemaphoreTable/Calls.antt =====
-- The system calls on semaphores of userprog/ksyscall.h.
use project.Prelude.{
  ℕ, ◌≡◌, refl, inl, inr, Bool-cases, List, arith, Exec, ok, ◌>>=◌, if◌then◌else◌, ℤ, minus_one,
  Option,
}
use project.CString.{is_empty}
use project.Machine.{Machine}
use project.Machine.Valid
use project.Syscall.{max_file_length}
use project.UserMemory.{user_to_system}
use project.UserMemory.Byte.{HaltsOr, HaltsOr->>=, HaltsOr-ok}
use project.UserMemory.Bounds.{IsCopy, user_to_system-IsTerminated}
use project.SemaphoreTable.{SemaphoreTable, Waiting, create, wait, signal}
use project.SemaphoreTable.Search.{IsValid}
use project.SemaphoreTable.Create.{Creates, in_use, full, made, create-Creates}

-- What `Create` returned is overwritten: `if (result=-1)`.
unfoldable pub sys_create_semaphore :
    Machine → SemaphoreTable → ℕ → ℕ → Exec (ℤ × (Machine × SemaphoreTable))
sys_create_semaphore m t addr value = user_to_system m addr max_file_length >>= λ r.
    if is_empty r.0
    then ok (minus_one, (r.1, t))
    else (create t r.0 value >>= λ c. ok (minus_one, (r.1, c.1)))

unfoldable pub sys_wait : Machine → SemaphoreTable → ℕ → ℕ → Exec (Machine × Waiting)
sys_wait m t thread addr =
    user_to_system m addr max_file_length >>= λ r. wait t thread r.0 >>= λ w. ok (r.1, w)

unfoldable pub sys_signal :
    Machine → SemaphoreTable → ℕ → Exec (ℤ × (Option ℕ × (Machine × SemaphoreTable)))
sys_signal m t addr = user_to_system m addr max_file_length >>= λ r.
    signal t r.0 >>= λ s. ok (s.0, (s.1.0, (r.1, s.1.1)))

-- The call fails, on a machine and a table that are well formed.
pub record Fails (r : ℤ × (Machine × SemaphoreTable)) : Type 0 where
  pub result : r.0 ≡ minus_one
  pub machine : Valid.IsValid r.1.0
  pub table : IsValid r.1.1

created-Fails :
    (t : SemaphoreTable) (m : Machine) (name : List ℕ) (value : ℕ)
    → IsValid t
    → Valid.IsValid m
    → Creates t name value (create t name value)
    → HaltsOr Fails (create t name value >>= λ c. ok (minus_one, (m, c.1)))
created-Fails t m name value v k (in_use i s g b h n e) =
    rw e (HaltsOr-ok Fails _ (record { result = refl; machine = k; table = v }))
created-Fails t m name value v k (full f e) =
    rw e (HaltsOr-ok Fails _ (record { result = refl; machine = k; table = v }))
created-Fails t m name value v k (made u f) =
    rw f.returns (HaltsOr-ok Fails _ (record { result = refl; machine = k; table = f.valid }))

-- On a valid machine and a valid table, `SysCreateSemaphore` halts by a fault in user memory or
-- returns -1, whether it has made the semaphore or not, and leaves both valid.
pub sys_create_semaphore-Fails :
    (m : Machine) (t : SemaphoreTable) (addr value : ℕ)
    → Valid.IsValid m
    → IsValid t
    → HaltsOr Fails (sys_create_semaphore m t addr value)
unfolding sys_create_semaphore
sys_create_semaphore-Fails m t addr value k v =
    HaltsOr->>= (IsCopy max_file_length) Fails (user_to_system m addr max_file_length) _
      (user_to_system-IsTerminated m addr max_file_length k (omega arith))
      (λ r c. elim (Bool-cases (is_empty r.0)) [
        | inl e ↦ rw e (HaltsOr-ok Fails _ (record { result = refl; machine = c.valid; table = v }))
        | inr e ↦ rw e (
            created-Fails t r.1 r.0 value v c.valid
              (create-Creates t r.0 value v (omega (arith, c.buffer.short))))
      ])
