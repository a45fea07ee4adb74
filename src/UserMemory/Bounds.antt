-- ===== src/UserMemory/Bounds.antt =====
-- What the kernel gets from user memory, and how much it writes there.
use project.Prelude.{
  ℕ, zero, suc, ◌%◌, ◌<◌, ◌≤◌, false, leb, int_max, ◌≡◌, refl, ◌⊎◌, inl, inr, ap, List, [], ◌∷◌,
  arith, ◌>>=◌, ◌==◌, Bool-cases, length, replicate, length-replicate,
}
use project.CString.{chars, strlen}
use project.Machine.{Machine, sign_extend, read_mem, write_mem}
use project.Machine.Valid.{IsValid}
use project.UserMemory.{settled, next_address, copy_string, user_to_system, system_to_user}
use project.UserMemory.Byte.{HaltsOr, HaltsOr->>=, HaltsOr-ok, Kept, read_byte, write_byte}

-- A buffer of `n + 1` bytes with a terminator at `n` or before.
pub record IsTerminated (n : ℕ) (buffer : List ℕ) : Type 0 where
  pub size : length buffer ≡ suc n
  pub short : strlen buffer ≤ n

-- What `User2System` gives: such a buffer, on a machine that is still valid.
pub record IsCopy (n : ℕ) (r : List ℕ × Machine) : Type 0 where
  pub buffer : IsTerminated n r.0
  pub valid : IsValid r.1

zeros-IsTerminated : (n : ℕ) → IsTerminated n (replicate (suc n) 0)
unfolding chars strlen
zeros-IsTerminated n = record { size = length-replicate (suc n) 0; short = omega arith }

cons-IsTerminated :
    (n b : ℕ) (buffer : List ℕ) → IsTerminated n buffer → IsTerminated (suc n) (b ∷ buffer)
unfolding chars strlen
cons-IsTerminated n b buffer t = record { size = ap suc t.size; short = ground (arith, t.short) }

copy_string-IsTerminated :
    (m : Machine) (addr limit : ℕ) → IsValid m → HaltsOr (IsCopy limit) (copy_string m addr limit)
unfolding copy_string
copy_string-IsTerminated m addr zero v =
    HaltsOr-ok (IsCopy 0) _ (record { buffer = zeros-IsTerminated 0; valid = v })
copy_string-IsTerminated m addr (suc left) v =
    HaltsOr->>= Kept (IsCopy (suc left)) (read_mem m addr 1 >>= settled) _ (read_byte m addr v)
      (λ t k.
        let rest = copy_string-IsTerminated t.1 (next_address addr) left k in
        elim (Bool-cases (t.0 == 0)) [
          | inl e ↦ rw e (
              HaltsOr-ok (IsCopy (suc left)) _
                (record { buffer = zeros-IsTerminated (suc left); valid = k }))
          | inr e ↦ rw e (
              HaltsOr->>= (IsCopy left) (IsCopy (suc left)) _ _ rest (λ r c.
                HaltsOr-ok (IsCopy (suc left)) _ (record {
                  buffer = cons-IsTerminated left (t.0 % 256) r.0 c.buffer;
                  valid = c.valid;
                })))
        ])

-- On a valid machine and with a limit below the greatest `int`, `User2System` halts by a fault in
-- user memory or returns a buffer of one byte more than the limit, with a terminator in it, on a
-- valid machine.
pub user_to_system-IsTerminated :
    (m : Machine) (addr limit : ℕ)
    → IsValid m
    → limit < int_max
    → HaltsOr (IsCopy limit) (user_to_system m addr limit)
unfolding user_to_system
user_to_system-IsTerminated m addr limit v h =
    let fits : leb int_max limit ≡ false = ground arith in
    rw fits (copy_string-IsTerminated m addr limit v)

-- `System2User` copied at most the length, and one byte at least unless that was 0.
pub record IsSent (len : ℕ) (r : ℕ × Machine) : Type 0 where
  pub at_most : r.0 ≤ len
  pub some_byte : (len ≡ 0) ⊎ (1 ≤ r.0)
  pub valid : IsValid r.1

-- On a valid machine and a buffer of `len` bytes or more, `System2User` halts by a fault in user
-- memory or returns how many bytes it has copied: at most `len`, and one at least unless `len` is 0.
pub system_to_user-IsSent :
    (m : Machine) (addr len : ℕ) (buffer : List ℕ)
    → len ≤ length buffer
    → IsValid m
    → HaltsOr (IsSent len) (system_to_user m addr len buffer)
unfolding system_to_user
system_to_user-IsSent m addr zero buffer h v =
    HaltsOr-ok (IsSent 0) _ (record { at_most = omega arith; some_byte = inl refl; valid = v })
system_to_user-IsSent m addr (suc left) [] h v = absurd (omega arith)
system_to_user-IsSent m addr (suc left) (b ∷ buffer) h v =
    HaltsOr->>= Kept (IsSent (suc left)) (write_mem m addr 1 (sign_extend b) >>= settled) _
      (write_byte m addr _ v)
      (λ t k.
        let rest = system_to_user-IsSent t.1 (next_address addr) left buffer (omega arith) k in
        elim (Bool-cases (b == 0)) [
          | inl e ↦ rw e (
              HaltsOr-ok (IsSent (suc left)) _
                (record { at_most = omega arith; some_byte = inr (omega arith); valid = k }))
          | inr e ↦ rw e (
              HaltsOr->>= (IsSent left) (IsSent (suc left)) _ _ rest (λ r c.
                HaltsOr-ok (IsSent (suc left)) _ (record {
                  at_most = omega (arith, c.at_most);
                  some_byte = inr (omega arith);
                  valid = c.valid;
                })))
        ])
