-- ===== src/Syscall/Receive.antt =====
-- `SysReceive` is safe: what arrives fits into the buffer.
use project.Prelude.{
  ℕ, ◌<◌, ◌≤◌, int_max, ◌≡◌, refl, inl, inr, arith, List, ℤ, pos, ltb_ℤ, length, Bool-cases,
}
use project.Host.{Host}
use project.FileTable.{Table, receive_entry}
use project.FileTable.Descriptor.{receive_on, received}
use project.FileTable.Search.{is_opening_cases}
use project.Syscall.{Kernel, copy_in, sys_receive}
use project.Syscall.Safety.{Safe, Safe->>=}
use project.Syscall.Files.{IsBounded, length-received}
use project.Syscall.Slots.{IsGood}
use project.Syscall.Calls.{GoodCall, Copied, copy_in-Safe, copy_out-Safe}

module _ (host : Host) where
  open host use {World}

  length-receive_on :
      (id : ℤ) (buffer : List ℕ) (n : ℕ) (w : World)
      → IsBounded host
      → n ≤ length buffer
      → length (receive_on host id buffer n w).1 ≡ length buffer
  unfolding receive_on
  length-receive_on id buffer n w b h =
      let t = host.receive id n w in
      let e = length-received t.0 buffer n (b.receive id n w) h in
      elim (Bool-cases (ltb_ℤ (received t.0 buffer).0 (pos 0))) [ inl c ↦ rw c e | inr c ↦ rw c e ]

  length-receive_entry :
      (files : Table) (id : ℤ) (buffer : List ℕ) (n : ℕ) (w : World)
      → IsBounded host
      → n ≤ length buffer
      → length (receive_entry host files id buffer n w).1 ≡ length buffer
  unfolding receive_entry
  length-receive_entry files id buffer n w b h = elim (is_opening_cases files id) [
    | inr c ↦ rw (c.is_none, receive_entry) refl
    | inl c ↦ rw (c.is_at, receive_entry) (length-receive_on id buffer n w b h)
  ]

  pub sys_receive-Safe :
      (k : Kernel host) (id : ℤ) (addr len : ℕ)
      → IsGood host k
      → IsBounded host
      → len < int_max
      → Safe (GoodCall host) (sys_receive host k id addr len)
  unfolding sys_receive
  sys_receive-Safe k id addr len g b fits =
      Safe->>= (Copied host k len) (GoodCall host) (copy_in host k addr len) _
        (copy_in-Safe host k addr len g fits)
        (λ t c.
          let r = receive_entry host t.1.files id t.0 len t.1.world in
          copy_out-Safe host (record t.1 { world = r.2 }) addr len r.1 r.0
            (omega (
              arith,
              c.buffer.size,
              length-receive_entry t.1.files id t.0 len t.1.world b (omega (arith, c.buffer.size)),
            ))
            (record { machine = c.good.machine; files = c.good.files }))
