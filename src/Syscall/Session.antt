-- ===== src/Syscall/Session.antt =====
-- A user program's calls one after the other.
use project.Prelude.{ℕ, int_max, ◌<◌, ◌≡◌, ℤ, ok}
use project.Host.{Host}
use project.FileTable.{new_table}
use project.Syscall.{
  Kernel, Call, sys_create, sys_seek, sys_open, sys_close, sys_remove, sys_read, sys_write,
  sys_socket_tcp, sys_connect, sys_send, sys_receive, sys_close_socket,
}
use project.Syscall.Safety.{Safe}
use project.Syscall.Files.{IsBounded}
use project.Syscall.Slots.{Named, IsGood}
use project.Syscall.Calls.{
  GoodCall, sys_create-Safe, sys_open-Safe, sys_close-Safe, sys_remove-Safe, sys_socket_tcp-Safe,
  sys_close_socket-Safe, sys_connect-Safe, sys_send-Safe,
}
use project.Syscall.Receive.{sys_receive-Safe}
use project.Syscall.Transfer.{Usable, sys_seek-Safe, sys_read-Safe, sys_write-Safe}

-- The calls on files and sockets, with their arguments.
pub data FileCall : Type 0 where
  create remove : ℕ → FileCall
  seek : ℤ → ℤ → FileCall
  open_file : ℕ → ℤ → FileCall
  close close_socket : ℤ → FileCall
  read write : ℕ → ℕ → ℤ → FileCall
  socket_tcp : FileCall
  connect : ℤ → ℕ → ℤ → FileCall
  send receive : ℤ → ℕ → ℕ → FileCall

module _ (host : Host) where
  open host use {World}

  -- Each by its function of ksyscall.h.
  abbrev pub run : FileCall → Kernel host → Call host
  run (create addr) k = sys_create host k addr
  run (remove addr) k = sys_remove host k addr
  run (seek position id) k = sys_seek host k position id
  run (open_file addr type) k = sys_open host k addr type
  run (close id) k = sys_close host k id
  run (close_socket id) k = sys_close_socket host k id
  run (read addr n id) k = sys_read host k addr n id
  run (write addr n id) k = sys_write host k addr n id
  run socket_tcp k = sys_socket_tcp host k
  run (connect id addr port) k = sys_connect host k id addr port
  run (send id addr len) k = sys_send host k id addr len
  run (receive id addr len) k = sys_receive host k id addr len

  -- What a call must not be made without: an open file under the identifier that it reads, writes or
  -- seeks in, no open socket while a file is removed, and a length below the greatest `int`.
  abbrev pub Allowed : FileCall → Kernel host → Type 0
  Allowed (seek position id) k = Usable k.files id
  Allowed (read addr n id) k = (n < int_max) × Usable k.files id
  Allowed (write addr n id) k = (n < int_max) × Usable k.files id
  Allowed (remove addr) k = Named k.files
  Allowed (create addr) k = Unit {0}
  Allowed (open_file addr type) k = Unit {0}
  Allowed (close id) k = Unit {0}
  Allowed (close_socket id) k = Unit {0}
  Allowed socket_tcp k = Unit {0}
  Allowed (connect id addr port) k = Unit {0}
  Allowed (send id addr len) k = len < int_max
  Allowed (receive id addr len) k = len < int_max

  pub run-Safe :
      (c : FileCall) (k : Kernel host)
      → IsBounded host
      → IsGood host k
      → Allowed c k
      → Safe (GoodCall host) (run c k)
  run-Safe (create addr) k b g a = sys_create-Safe host k addr g
  run-Safe (remove addr) k b g a = sys_remove-Safe host k addr g a
  run-Safe (seek position id) k b g a = sys_seek-Safe host k position id g a
  run-Safe (open_file addr type) k b g a = sys_open-Safe host k addr type g
  run-Safe (close id) k b g a = sys_close-Safe host k id g
  run-Safe (close_socket id) k b g a = sys_close_socket-Safe host k id g
  run-Safe (read addr n id) k b g a = sys_read-Safe host k addr n id g b a.1 a.0
  run-Safe (write addr n id) k b g a = sys_write-Safe host k addr n id g a.1 a.0
  run-Safe socket_tcp k b g a = sys_socket_tcp-Safe host k g
  run-Safe (connect id addr port) k b g a = sys_connect-Safe host k id addr port g
  run-Safe (send id addr len) k b g a = sys_send-Safe host k id addr len g a
  run-Safe (receive id addr len) k b g a = sys_receive-Safe host k id addr len g b a

  -- The kernels that allowed calls lead to, from a valid machine with the first table.
  pub data Reachable : Kernel host → Type 0 where
    start : (k : Kernel host) → IsGood host k → k.files ≡ new_table → Reachable k
    call :
        (k : Kernel host) (c : FileCall) (r : ℤ) (k' : Kernel host)
        → Reachable k
        → Allowed c k
        → run c k ≡ ok (r, k')
        → Reachable k'
