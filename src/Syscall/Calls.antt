-- ===== src/Syscall/Calls.antt =====
-- All the system calls on files and sockets together, and what they need to be safe.
use project.Prelude.{
  ℕ, ◌<◌, ◌≤◌, int_max, arith, ◌≡◌, refl, inl, inr, List, ℤ, pos, minus_one, Exec, ok, ◌>>=◌, ◌==ℤ◌,
  ◌||◌, length, Bool-cases,
}
use project.Host.{Host, open_for_write, close}
use project.FileTable.{
  is_opening, slot, open_entry, socket_entry, close_socket_entry, receive_entry,
}
use project.FileTable.Preserve.{
  Good, open_entry-IsValid, socket_entry-IsValid, close_socket_entry-IsValid,
}
use project.UserMemory.{user_to_system, system_to_user}
use project.UserMemory.Bounds.{
  IsTerminated, IsCopy, IsSent, user_to_system-IsTerminated, system_to_user-IsSent,
}
use project.CString.{is_empty}
use project.Syscall.{
  Kernel, copy_in, copy_out, create_file, sys_create, sys_open, sys_close, sys_remove,
  sys_socket_tcp, sys_connect, sys_send, sys_close_socket, with_files,
}
use project.Syscall.Safety.{Safe, Safe-ok, Safe->>=, Safe-assert, Returns-Safe, HaltsOr-Safe}
use project.Syscall.Slots.{Named, IsGood, close_entry-Safe, is_opening_with_name-Safe}

module _ (host : Host) where
  open host use {World}

  abbrev pub GoodCall : ℤ × Kernel host → Type 0
  GoodCall t = IsGood host t.1

  -- What `copy_in` gives: a terminated buffer, and the kernel with the same table.
  pub record Copied (k : Kernel host) (limit : ℕ) (t : List ℕ × Kernel host) : Type 0 where
    pub buffer : IsTerminated limit t.0
    pub files : t.1.files ≡ k.files
    pub good : IsGood host t.1

  pub copy_in-Safe :
      (k : Kernel host) (addr limit : ℕ)
      → IsGood host k
      → limit < int_max
      → Safe (Copied k limit) (copy_in host k addr limit)
  unfolding copy_in
  copy_in-Safe k addr limit g fits =
      Safe->>= (IsCopy limit) (Copied k limit) (user_to_system k.machine addr limit) _
        (HaltsOr-Safe (IsCopy limit) _
          (user_to_system-IsTerminated k.machine addr limit g.machine fits))
        (λ r c. Safe-ok (Copied k limit) _ (record {
          buffer = c.buffer;
          files = refl;
          good = record { machine = c.valid; files = g.files };
        }))

  pub copy_out-Safe :
      (k : Kernel host) (addr len : ℕ) (buffer : List ℕ) (result : ℤ)
      → len ≤ length buffer
      → IsGood host k
      → Safe GoodCall (copy_out host k addr len buffer result)
  unfolding copy_out
  copy_out-Safe k addr len buffer result le g =
      Safe->>= (IsSent len) GoodCall (system_to_user k.machine addr len buffer) _
        (HaltsOr-Safe (IsSent len) _ (system_to_user-IsSent k.machine addr len buffer le g.machine))
        (λ r c. Safe-ok GoodCall _ (record { machine = c.valid; files = g.files }))

  open_for_write-Safe :
      (name : List ℕ) (w : World) → Safe (λ t. Unit {0}) (open_for_write host name w)
  unfolding open_for_write
  open_for_write-Safe name w = Safe-assert (λ t. Unit {0}) _ (ok _) (Safe-ok _ _ tt)

  close-Safe : (fd : ℤ) (w : World) → Safe (λ t. Unit {0}) (close host fd w)
  unfolding close
  close-Safe fd w = Safe-assert (λ t. Unit {0}) _ (ok _) (Safe-ok _ _ tt)

  create_file-Safe : (name : List ℕ) (w : World) → Safe (λ t. Unit {0}) (create_file host name w)
  unfolding create_file
  create_file-Safe name w =
      Safe->>= (λ t. Unit {0}) (λ t. Unit {0}) (open_for_write host name w) _
        (open_for_write-Safe name w)
        (λ t u. elim (Bool-cases (t.0 ==ℤ minus_one)) [
          | inl e ↦ rw e (Safe-ok _ _ tt)
          | inr e ↦ rw e (
              Safe->>= (λ t. Unit {0}) (λ t. Unit {0}) (close host t.0 t.1) _ (close-Safe t.0 t.1)
                (λ t u. Safe-ok _ _ tt))
        ])

  pub sys_create-Safe :
      (k : Kernel host) (addr : ℕ) → IsGood host k → Safe GoodCall (sys_create host k addr)
  unfolding sys_create
  sys_create-Safe k addr g =
      Safe->>= (Copied k 33) GoodCall (copy_in host k addr 33) _
        (copy_in-Safe k addr 33 g (omega arith))
        (λ t c. elim (Bool-cases (is_empty t.0)) [
          | inl e ↦ rw e (Safe-ok GoodCall _ c.good)
          | inr e ↦ rw e (
              Safe->>= (λ t. Unit {0}) GoodCall (create_file host t.0 t.1.world) _
                (create_file-Safe t.0 t.1.world)
                (λ r u.
                  Safe-ok GoodCall _ (record { machine = c.good.machine; files = c.good.files })))
        ])

  table_call-Safe :
      (k : Kernel host) (r : Exec (ℤ × project.FileTable.Table × World))
      → IsGood host k
      → Safe (Good host) r
      → Safe GoodCall (r >>= with_files host k)
  table_call-Safe k r g s =
      Safe->>= (Good host) GoodCall r (with_files host k) s
        (λ t v. Safe-ok GoodCall _ (record { machine = g.machine; files = v }))

  pub sys_open-Safe :
      (k : Kernel host) (addr : ℕ) (type : ℤ)
      → IsGood host k
      → Safe GoodCall (sys_open host k addr type)
  unfolding sys_open
  sys_open-Safe k addr type g = elim (Bool-cases (type ==ℤ pos 0 || type ==ℤ pos 1)) [
    | inr e ↦ rw e (Safe-ok GoodCall _ g)
    | inl e ↦ rw e (
        Safe->>= (Copied k 32) GoodCall (copy_in host k addr 32) _
          (copy_in-Safe k addr 32 g (omega arith))
          (λ t c. elim (Bool-cases (is_empty t.0)) [
            | inl e' ↦ rw e' (Safe-ok GoodCall _ c.good)
            | inr e' ↦ rw e' (
                table_call-Safe t.1 _ c.good (
                  Returns-Safe (Good host) _
                    (open_entry-IsValid host t.1.files t.0 type t.1.world c.good.files)))
          ]))
  ]

  pub sys_close-Safe :
      (k : Kernel host) (id : ℤ) → IsGood host k → Safe GoodCall (sys_close host k id)
  unfolding sys_close
  sys_close-Safe k id g =
      Safe->>= (Good host) GoodCall _ _ (close_entry-Safe host k.files id k.world g.files)
        (λ t v. Safe-ok GoodCall _ (record { machine = g.machine; files = v }))

  pub sys_remove-Safe :
      (k : Kernel host) (addr : ℕ)
      → IsGood host k
      → Named k.files
      → Safe GoodCall (sys_remove host k addr)
  unfolding sys_remove
  sys_remove-Safe k addr g named =
      Safe->>= (Copied k 32) GoodCall (copy_in host k addr 32) _
        (copy_in-Safe k addr 32 g (omega arith))
        (λ t c.
          Safe->>= (λ r. Unit {0}) GoodCall _ _
            (is_opening_with_name-Safe t.1.files t.0 (rw c.files named))
            (λ index u. elim (Bool-cases (index ==ℤ minus_one)) [
              | inl e ↦
                  rw e
                    (Safe-ok GoodCall _ (record { machine = c.good.machine; files = c.good.files }))
              | inr e ↦ rw e (Safe-ok GoodCall _ c.good)
            ]))

  pub sys_socket_tcp-Safe :
      (k : Kernel host) → IsGood host k → Safe GoodCall (sys_socket_tcp host k)
  unfolding sys_socket_tcp
  sys_socket_tcp-Safe k g =
      table_call-Safe k _ g
        (Returns-Safe (Good host) _ (socket_entry-IsValid host k.files k.world g.files))

  pub sys_close_socket-Safe :
      (k : Kernel host) (id : ℤ) → IsGood host k → Safe GoodCall (sys_close_socket host k id)
  unfolding sys_close_socket
  sys_close_socket-Safe k id g =
      table_call-Safe k _ g
        (Returns-Safe (Good host) _ (close_socket_entry-IsValid host k.files id k.world g.files))

  pub sys_connect-Safe :
      (k : Kernel host) (id : ℤ) (addr : ℕ) (port : ℤ)
      → IsGood host k
      → Safe GoodCall (sys_connect host k id addr port)
  unfolding sys_connect
  sys_connect-Safe k id addr port g =
      Safe->>= (Copied k 32) GoodCall (copy_in host k addr 32) _
        (copy_in-Safe k addr 32 g (omega arith))
        (λ t c. elim (Bool-cases (is_empty t.0)) [
          | inl e' ↦ rw e' (Safe-ok GoodCall _ c.good)
          | inr e' ↦
              rw e' (Safe-ok GoodCall _ (record { machine = c.good.machine; files = c.good.files }))
        ])

  pub sys_send-Safe :
      (k : Kernel host) (id : ℤ) (addr len : ℕ)
      → IsGood host k
      → len < int_max
      → Safe GoodCall (sys_send host k id addr len)
  unfolding sys_send
  sys_send-Safe k id addr len g fits =
      Safe->>= (Copied k len) GoodCall (copy_in host k addr len) _ (copy_in-Safe k addr len g fits)
        (λ t c. Safe-ok GoodCall _ (record { machine = c.good.machine; files = c.good.files }))
