-- ===== src/Syscall/Sample.antt =====
-- The host of FileTable/Sample among those that read no more than they are asked for.
use project.Prelude.{ℕ, arith, Option, none, some, length, ◌≤◌, ◌≡◌, List, [], ◌∷◌, ap}
use project.FileTable.Sample.{sample_host}
use project.Syscall.Files.{IsBounded}

abbrev length_of : Option (List ℕ) → ℕ
length_of none = 0
length_of (some s) = length s

no_bytes :
    (bytes : List ℕ) (n : ℕ) → ◌≡◌ {A = Option (List ℕ)} (some []) (some bytes) → length bytes ≤ n
no_bytes [] n h = omega arith
no_bytes (b ∷ bytes) n h = absurd (let e = ap length_of h in omega (arith, e))

pub sample_host-IsBounded : IsBounded sample_host
sample_host-IsBounded = record {
  read = λ fd n w bytes h. no_bytes bytes n h;
  receive = λ fd n w bytes h. no_bytes bytes n h;
}
