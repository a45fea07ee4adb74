-- ===== src/Syscall.antt =====
-- The system calls on files and sockets of userprog/ksyscall.h, and the two operations of the stub
-- `FileSystem` (filesys/filesys.h) that they use. A call takes its arguments as `ExceptionHandler`
-- reads them from the registers; sizes and lengths are non-negative.
pub mod Safety
pub mod Files
pub mod Slots
pub mod Calls
pub mod Console
pub mod Receive
pub mod Transfer
pub mod Session
pub mod Unopened
pub mod Sample
mod Tests
use project.Prelude.{
  ℕ, zero, suc, ◌+◌, Bool, true, false, not, ◌||◌, List, [], ◌∷◌, ℤ, pos, minus_one, Exec, ok,
  undefined, ◌>>=◌, defined, ltb_ℤ, ◌==ℤ◌, ◌==◌, if◌then◌else◌, set,
}
use project.CString.{is_empty}
use project.Host.{Host, open_for_write, close, unlink_failed}
use project.Machine.{Machine}
use project.FileTable.{
  Table, slot, is_opening, is_opening_with_name, get_file_descriptor, open_entry, close_entry,
  socket_entry, connect_entry, send_entry, receive_entry, close_socket_entry,
}
use project.FileTable.Descriptor.{FileDescriptor, seek, read, write}
use project.UserMemory.{user_to_system, system_to_user}

abbrev pub max_file_length : ℕ
max_file_length = 32

abbrev pub console_input_id : ℤ
console_input_id = pos 0

abbrev pub console_output_id : ℤ
console_output_id = pos 1

module _ (host : Host) where
  open host use {World}

  -- The machine, the table of open files and the world outside.
  pub record Kernel : Type 0 where
    pub machine : Machine
    pub files : Table
    pub world : World

  abbrev pub Call : Type 0
  Call = Exec (ℤ × Kernel)

  -- `FileSystem::Create`
  pub create_file : List ℕ → World → Exec (Bool × World)
  create_file name w = do
    (fd, w₁) ← open_for_write host name w
    if fd ==ℤ minus_one then ok (false, w₁) else (close host fd w₁ >>= λ t. ok (true, t.1))

  -- `FileSystem::Remove`
  pub remove_file : List ℕ → World → Bool × World
  remove_file name w = let (failed, w') = unlink_failed host name w in (not failed, w')

  pub copy_in : Kernel → ℕ → ℕ → Exec (List ℕ × Kernel)
  copy_in k addr limit =
      user_to_system k.machine addr limit >>= λ r. ok (r.0, record k { machine = r.1 })

  -- A copy to user memory, before a call returns `result`.
  pub copy_out : Kernel → ℕ → ℕ → List ℕ → ℤ → Call
  copy_out k addr len buffer result =
      system_to_user k.machine addr len buffer >>= λ r. ok (result, record k { machine = r.1 })

  -- What an operation of the table returned, in the kernel.
  abbrev pub with_files : Kernel → ℤ × Table × World → Call
  with_files k (r, files, w) = ok (r, record k { files = files; world = w })

  abbrev pub with_world : Kernel → ℤ × World → Call
  with_world k (r, w) = ok (r, record k { world = w })

  -- The operation on the descriptor that `GetFileDescriptor(id)` points to, which may be NULL.
  pub at_descriptor {ℓ} :
      {A : Type ℓ}
      → Kernel
      → ℤ
      → (FileDescriptor → World → Exec (A × FileDescriptor × World))
      → Exec (A × Kernel)
  at_descriptor k id f = do
    i ← defined (get_file_descriptor k.files id)
    (a, fd, w) ← f (slot k.files i) k.world
    ok (a, record k { files = set k.files i fd; world = w })

  pub sys_create : Kernel → ℕ → Call
  sys_create k addr = do
    (name, k₁) ← copy_in k addr (max_file_length + 1)
    if is_empty name
        then ok (minus_one, k₁)
        else (create_file name k₁.world >>= λ t.
            with_world k₁ (if t.0 then pos 0 else minus_one, t.1))

  -- `!table.IsOpening(id)` asks whether the index is 0.
  pub sys_seek : Kernel → ℤ → ℤ → Call
  sys_seek k position id =
      if ltb_ℤ id (pos 0)
      then ok (minus_one, k)
      else if id ==ℤ console_output_id
      then ok (minus_one, k)
      else if id ==ℤ console_input_id
      then ok (minus_one, k)
      else if is_opening k.files id ==ℤ pos 0
      then ok (minus_one, k)
      else at_descriptor k id (λ fd w. seek host fd position w)

  pub sys_open : Kernel → ℕ → ℤ → Call
  sys_open k addr type =
      if not (type ==ℤ pos 0 || type ==ℤ pos 1)
      then ok (minus_one, k)
      else (copy_in k addr max_file_length >>= λ t.
          if is_empty t.0
          then ok (minus_one, t.1)
          else (open_entry host t.1.files t.0 type t.1.world >>= with_files t.1))

  pub sys_close : Kernel → ℤ → Call
  sys_close k id = do
    (r, files, w) ← close_entry host k.files id k.world
    ok (if r ==ℤ minus_one then minus_one else pos 0, record k { files = files; world = w })

  -- An empty name is not turned away: the second test runs on it too.
  pub sys_remove : Kernel → ℕ → Call
  sys_remove k addr = do
    (name, k₁) ← copy_in k addr max_file_length
    index ← is_opening_with_name k₁.files name
    if not (index ==ℤ minus_one)
        then ok (minus_one, k₁)
        else (let (removed, w) = remove_file name k₁.world in
            with_world k₁ (if removed then pos 0 else minus_one, w))

  -- The loop of `SysRead` on the console, with what the buffer holds after it.
  pub console_read : ℕ → List ℕ → World → Exec (ℕ × List ℕ × World)
  console_read zero buffer w = ok (0, buffer, w)
  console_read (suc left) [] w = undefined
  console_read (suc left) (b ∷ buffer) w =
      let (c, w') = host.get_char w in
      let rest = console_read left buffer w' in
      if c == 255 || c == b'\n'
      then ok (0, 0 ∷ buffer, w')
      else rest >>= λ r. ok (suc r.0, c ∷ r.1, r.2)

  -- The loop of `SysWrite` on the console.
  pub console_write : ℕ → List ℕ → World → Exec (ℕ × World)
  console_write left [] w = undefined
  console_write zero (b ∷ buffer) w = ok (0, w)
  console_write (suc left) (b ∷ buffer) w =
      let rest = console_write left buffer (host.put_char b w) in
      if b == 0 then ok (0, w) else rest >>= λ r. ok (suc r.0, r.1)

  -- The part of `SysRead` after the checks, with the bytes of the buffer: a result and a buffer.
  pub read_into : Kernel → ℕ → ℤ → List ℕ → Exec ((ℤ × List ℕ) × Kernel)
  read_into k size id buffer =
      if id ==ℤ console_input_id
      then (console_read size buffer k.world >>= λ r. ok ((pos r.0, r.1), record k { world = r.2 }))
      else at_descriptor k id
          (λ fd w. read host fd buffer size w >>= λ r. ok ((r.0, r.1), r.2, r.3))

  pub sys_read : Kernel → ℕ → ℕ → ℤ → Call
  sys_read k addr size id =
      if ltb_ℤ id (pos 0)
      then ok (minus_one, k)
      else if id ==ℤ console_output_id
      then ok (minus_one, k)
      else if is_opening k.files id ==ℤ pos 0
      then ok (minus_one, k)
      else (copy_in k addr size >>= λ t.
          read_into t.1 size id t.0 >>= λ r. copy_out r.1 addr size r.0.1 r.0.0)

  pub write_from : Kernel → ℕ → ℤ → List ℕ → Call
  write_from k size id buffer =
      if id ==ℤ console_output_id
      then (console_write size buffer k.world >>= λ r. with_world k (pos r.0, r.1))
      else at_descriptor k id (λ fd w. write host fd buffer size w)

  pub sys_write : Kernel → ℕ → ℕ → ℤ → Call
  sys_write k addr size id =
      if ltb_ℤ id (pos 0)
      then ok (minus_one, k)
      else if id ==ℤ console_input_id
      then ok (minus_one, k)
      else if is_opening k.files id ==ℤ pos 0
      then ok (minus_one, k)
      else (copy_in k addr size >>= λ t.
          write_from t.1 size id t.0 >>= λ r. copy_out r.1 addr size t.0 r.0)

  pub sys_socket_tcp : Kernel → Call
  sys_socket_tcp k = socket_entry host k.files k.world >>= with_files k

  pub sys_connect : Kernel → ℤ → ℕ → ℤ → Call
  sys_connect k id addr port = do
    (address, k₁) ← copy_in k addr max_file_length
    if is_empty address
        then ok (minus_one, k₁)
        else with_world k₁ (connect_entry host k₁.files id address port k₁.world)

  pub sys_send : Kernel → ℤ → ℕ → ℕ → Call
  sys_send k id addr len = do
    (buffer, k₁) ← copy_in k addr len
    with_world k₁ (send_entry host k₁.files id buffer len k₁.world)

  pub sys_receive : Kernel → ℤ → ℕ → ℕ → Call
  sys_receive k id addr len = do
    (buffer, k₁) ← copy_in k addr len
    let (result, buffer', w) = receive_entry host k₁.files id buffer len k₁.world
    copy_out (record k₁ { world = w }) addr len buffer' result

  pub sys_close_socket : Kernel → ℤ → Call
  sys_close_socket k id = close_socket_entry host k.files id k.world >>= with_files k
