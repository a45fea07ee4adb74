-- ===== src/Syscall/Transfer.antt =====
-- The calls that work on an open file or on the console.
use project.Prelude.{
  ℕ, int_max, ◌≤◌, ◌<◌, ◌≡◌, ◌≢◌, ◌⊎◌, inl, inr, ◌∙◌, sym, true, false, arith, List, ℤ, pos,
  minus_one, Exec, ok, ◌>>=◌, ltb_ℤ, ◌==ℤ◌, length, Bool-cases,
}
use project.Host.{Host}
use project.FileTable.{Table, is_opening, slot}
use project.FileTable.Descriptor.{FileDescriptor, seek, read, write}
use project.FileTable.Valid.{IsSlot}
use project.Syscall.{
  Kernel, at_descriptor, copy_in, console_read, console_write, read_into, write_from, sys_seek,
  sys_read, sys_write, console_input_id, console_output_id,
}
use project.Syscall.Safety.{Safe, Safe-ok, Safe->>=, Safe-weaken}
use project.Syscall.Files.{IsBounded, Slotted, seek-Safe, ReadInto, read-Safe, write-Safe}
use project.Syscall.Slots.{HasFile, IsGood, at_descriptor-Safe, get_file_descriptor-Stands}
use project.Syscall.Calls.{GoodCall, Copied, copy_in-Safe, copy_out-Safe}
use project.Syscall.Console.{console_read-Safe, console_write-Safe}

-- The identifier is turned away, or one of the console's, or an open file's.
abbrev pub Usable : Table → ℤ → Type 0
Usable files id =
    (ltb_ℤ id (pos 0) ≡ true)
    ⊎ ((id ≡ console_input_id) ⊎ ((id ≡ console_output_id) ⊎ HasFile files id))

not_minus_one : (id : ℤ) → ltb_ℤ id (pos 0) ≡ false → id ≢ minus_one
not_minus_one id h e = let h' = rw e at h in cc

-- What is left once the checks are passed: a file.
pub HasFile-of :
    (files : Table) (id : ℤ)
    → Usable files id
    → ltb_ℤ id (pos 0) ≡ false
    → (id ==ℤ console_input_id) ≡ false
    → (id ==ℤ console_output_id) ≡ false
    → HasFile files id
HasFile-of files id (inl u) n i o = absurd (let e = sym u ∙ n in cc)
HasFile-of files id (inr (inl u)) n i o = absurd (let e = rw u at i in cc)
HasFile-of files id (inr (inr (inl u))) n i o = absurd (let e = rw u at o in cc)
HasFile-of files id (inr (inr (inr f))) n i o = f

module _ (host : Host) where
  open host use {World}

  open_id :
      (k : Kernel host) (id : ℤ) (h : HasFile k.files id)
      → ltb_ℤ id (pos 0) ≡ false
      → (slot k.files h.at).id ≢ minus_one
  open_id k id h n e =
      not_minus_one id n (sym (get_file_descriptor-Stands k.files id h.at h.found).same ∙ e)

  at_file :
      (k : Kernel host) (id : ℤ) (f : FileDescriptor → World → Exec (ℤ × FileDescriptor × World))
      → IsGood host k
      → (h : HasFile k.files id) → Safe (λ t. Unit {0} × IsSlot t.1) (f (slot k.files h.at) k.world)
      → Safe (GoodCall host) (at_descriptor host k id f)
  at_file k id f g h s =
      Safe-weaken (λ t. Unit {0} × IsGood host t.1) (GoodCall host) (at_descriptor host k id f)
        (λ t q. q.1) (at_descriptor-Safe host (λ r. Unit {0}) k id f g h s)

  pub sys_seek-Safe :
      (k : Kernel host) (position id : ℤ)
      → IsGood host k
      → Usable k.files id
      → Safe (GoodCall host) (sys_seek host k position id)
  unfolding sys_seek
  sys_seek-Safe k position id g u = elim (Bool-cases (ltb_ℤ id (pos 0))) [
    | inl n ↦ rw n (Safe-ok _ _ g)
    | inr n ↦ rw n (elim (Bool-cases (id ==ℤ console_output_id)) [
      | inl o ↦ rw o (Safe-ok _ _ g)
      | inr o ↦ rw o (elim (Bool-cases (id ==ℤ console_input_id)) [
        | inl i ↦ rw i (Safe-ok _ _ g)
        | inr i ↦ rw i (elim (Bool-cases (is_opening k.files id ==ℤ pos 0)) [
          | inl z ↦ rw z (Safe-ok _ _ g)
          | inr z ↦ rw z (
              let h = HasFile-of k.files id u n i o in
              at_file k id (λ fd w. seek host fd position w) g h
                (Safe-weaken (Slotted host) _ _ (λ t s. (tt, s))
                  (seek-Safe host (slot k.files h.at) h.file position k.world (g.files.slots h.at)
                    (open_id k id h n) h.is_file)))
        ])
      ])
    ])
  ]

  -- What a read left in the buffer, of its length.
  pub record Loaded (n : ℕ) (t : (ℤ × List ℕ) × Kernel host) : Type 0 where
    pub size : n ≤ length t.0.1
    pub good : IsGood host t.1

  read_into-Safe :
      (k : Kernel host) (n : ℕ) (id : ℤ) (buffer : List ℕ)
      → IsGood host k
      → IsBounded host
      → Usable k.files id
      → ltb_ℤ id (pos 0) ≡ false
      → (id ==ℤ console_output_id) ≡ false
      → n ≤ length buffer
      → Safe (Loaded n) (read_into host k n id buffer)
  unfolding read_into
  read_into-Safe k n id buffer g b u neg out le = elim (Bool-cases (id ==ℤ console_input_id)) [
    | inl i ↦ rw i (
        Safe->>= (λ t. length t.1 ≡ length buffer) (Loaded n) (console_read host n buffer k.world) _
          (console_read-Safe host n buffer k.world le)
          (λ r q. Safe-ok (Loaded n) _ (record {
            size = omega (arith, le, q);
            good = record { machine = g.machine; files = g.files };
          })))
    | inr i ↦
        let h = HasFile-of k.files id u neg i out in
        let R : ℤ × List ℕ → Type 0 = λ r. n ≤ length r.1 in
        let op : FileDescriptor → World → Exec ((ℤ × List ℕ) × FileDescriptor × World) =
          λ fd w. read host fd buffer n w >>= λ r. ok ((r.0, r.1), r.2, r.3) in
        rw i (
          Safe-weaken (λ t. R t.0 × IsGood host t.1) (Loaded n) (at_descriptor host k id op)
            (λ t q. record { size = q.0; good = q.1 })
            (at_descriptor-Safe host R k id op g h (
              Safe->>= (ReadInto host buffer) (λ t. R t.0 × IsSlot t.1)
                (read host (slot k.files h.at) buffer n k.world) _
                (read-Safe host (slot k.files h.at) h.file buffer n k.world b le
                  (g.files.slots h.at) (open_id k id h neg) h.is_file)
                (λ t q. Safe-ok (λ t. R t.0 × IsSlot t.1) _ (omega (arith, le, q.1), q.0)))))
  ]

  pub sys_read-Safe :
      (k : Kernel host) (addr n : ℕ) (id : ℤ)
      → IsGood host k
      → IsBounded host
      → Usable k.files id
      → n < int_max
      → Safe (GoodCall host) (sys_read host k addr n id)
  unfolding sys_read
  sys_read-Safe k addr n id g b u fits = elim (Bool-cases (ltb_ℤ id (pos 0))) [
    | inl neg ↦ rw neg (Safe-ok _ _ g)
    | inr neg ↦ rw neg (elim (Bool-cases (id ==ℤ console_output_id)) [
      | inl o ↦ rw o (Safe-ok _ _ g)
      | inr o ↦ rw o (elim (Bool-cases (is_opening k.files id ==ℤ pos 0)) [
        | inl z ↦ rw z (Safe-ok _ _ g)
        | inr z ↦ rw z (
            Safe->>= (Copied host k n) (GoodCall host) (copy_in host k addr n) _
              (copy_in-Safe host k addr n g fits)
              (λ t c.
                Safe->>= (Loaded n) (GoodCall host) (read_into host t.1 n id t.0) _
                  (read_into-Safe t.1 n id t.0 c.good b (rw c.files u) neg o
                    (omega (arith, c.buffer.size)))
                  (λ r q. copy_out-Safe host r.1 addr n r.0.1 r.0.0 q.size q.good)))
      ])
    ])
  ]

  write_from-Safe :
      (k : Kernel host) (n : ℕ) (id : ℤ) (buffer : List ℕ)
      → IsGood host k
      → Usable k.files id
      → ltb_ℤ id (pos 0) ≡ false
      → (id ==ℤ console_input_id) ≡ false
      → n < length buffer
      → Safe (GoodCall host) (write_from host k n id buffer)
  unfolding write_from
  write_from-Safe k n id buffer g u neg i le = elim (Bool-cases (id ==ℤ console_output_id)) [
    | inl o ↦ rw o (
        Safe->>= (λ t. Unit {0}) (GoodCall host) (console_write host n buffer k.world) _
          (console_write-Safe host n buffer k.world le)
          (λ r q. Safe-ok _ _ (record { machine = g.machine; files = g.files })))
    | inr o ↦
        let h = HasFile-of k.files id u neg i o in
        rw o (
          at_file k id (λ fd w. write host fd buffer n w) g h
            (Safe-weaken (Slotted host) _ _ (λ t s. (tt, s))
              (write-Safe host (slot k.files h.at) h.file buffer n k.world (g.files.slots h.at)
                (open_id k id h neg) h.is_file)))
  ]

  pub sys_write-Safe :
      (k : Kernel host) (addr n : ℕ) (id : ℤ)
      → IsGood host k
      → Usable k.files id
      → n < int_max
      → Safe (GoodCall host) (sys_write host k addr n id)
  unfolding sys_write
  sys_write-Safe k addr n id g u fits = elim (Bool-cases (ltb_ℤ id (pos 0))) [
    | inl neg ↦ rw neg (Safe-ok _ _ g)
    | inr neg ↦ rw neg (elim (Bool-cases (id ==ℤ console_input_id)) [
      | inl o ↦ rw o (Safe-ok _ _ g)
      | inr o ↦ rw o (elim (Bool-cases (is_opening k.files id ==ℤ pos 0)) [
        | inl z ↦ rw z (Safe-ok _ _ g)
        | inr z ↦ rw z (
            Safe->>= (Copied host k n) (GoodCall host) (copy_in host k addr n) _
              (copy_in-Safe host k addr n g fits)
              (λ t c.
                Safe->>= (GoodCall host) (GoodCall host) (write_from host t.1 n id t.0) _
                  (write_from-Safe t.1 n id t.0 c.good (rw c.files u) neg o
                    (omega (arith, c.buffer.size)))
                  (λ r q. copy_out-Safe host r.1 addr n t.0 r.0 (omega (arith, c.buffer.size)) q)))
      ])
    ])
  ]
