-- ===== src/Syscall/Console.antt =====
-- The loops of `SysRead` and `SysWrite` on the console.
use project.Prelude.{
  ℕ, zero, suc, ◌≤◌, ◌<◌, ◌≡◌, refl, ap, inl, inr, arith, List, [], ◌∷◌, ◌==◌, ◌||◌, length,
  Bool-cases,
}
use project.Host.{Host}
use project.Syscall.{console_read, console_write}
use project.Syscall.Safety.{Safe, Safe-ok, Safe->>=}

module _ (host : Host) where
  open host use {World}

  pub console_read-Safe :
      (left : ℕ) (buffer : List ℕ) (w : World)
      → left ≤ length buffer
      → Safe (λ t. length t.1 ≡ length buffer) (console_read host left buffer w)
  unfolding console_read
  console_read-Safe zero buffer w h = Safe-ok _ _ refl
  console_read-Safe (suc left) [] w h = absurd (omega arith)
  console_read-Safe (suc left) (b ∷ buffer) w h =
      let t = host.get_char w in
      let rest = console_read-Safe left buffer t.1 (omega arith) in
      elim (Bool-cases (t.0 == 255 || t.0 == b'\n')) [
        | inl e ↦ rw e (Safe-ok _ _ refl)
        | inr e ↦ rw e (
            Safe->>= (λ r. length r.1 ≡ length buffer) (λ r. length r.1 ≡ suc (length buffer)) _ _
              rest (λ r q. Safe-ok _ _ (ap suc q)))
      ]

  pub console_write-Safe :
      (left : ℕ) (buffer : List ℕ) (w : World)
      → left < length buffer
      → Safe (λ t. Unit {0}) (console_write host left buffer w)
  unfolding console_write
  console_write-Safe zero [] w h = absurd (omega arith)
  console_write-Safe zero (b ∷ buffer) w h = Safe-ok _ _ tt
  console_write-Safe (suc left) [] w h = absurd (omega arith)
  console_write-Safe (suc left) (b ∷ buffer) w h =
      let rest = console_write-Safe left buffer (host.put_char b w) (omega arith) in
      elim (Bool-cases (b == 0)) [
        | inl e ↦ rw e (Safe-ok _ _ tt)
        | inr e ↦ rw e (Safe->>= (λ t. Unit {0}) (λ t. Unit {0}) _ _ rest (λ r u. Safe-ok _ _ tt))
      ]
