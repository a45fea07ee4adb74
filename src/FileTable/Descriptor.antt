-- ===== src/FileTable/Descriptor.antt =====
-- One descriptor of the table, and the file object under it.
use project.Prelude.{
  ℕ, false, not, List, [], ◌∷◌, ◌++◌, Option, none, some, ℤ, pos, minus_one, Exec, ok, ◌>>=◌,
  defined, ltb_ℤ, ◌==ℤ◌, ◌+ℤ◌, if◌then◌else◌, length, take, drop,
}
use project.CString.{str_same}
use project.Host.{Host, open_for_read_write, close, read_partial, write_all, lseek, tell}

-- `class OpenFile` of the stub file system.
pub record OpenFile : Type 0 where
  pub file : ℤ
  pub current_offset : ℤ
  pub type : ℤ

abbrev pub read_write_file : ℤ
read_write_file = pos 0

abbrev pub read_file_mode : ℤ
read_file_mode = pos 1

abbrev pub socket_mode : ℤ
socket_mode = pos 2

pub record FileDescriptor : Type 0 where
  pub mode : ℤ
  pub id : ℤ
  pub file : Option OpenFile
  pub name : Option (List ℕ)

-- The constructor.
abbrev pub blank : FileDescriptor
blank = record { mode = minus_one; id = minus_one; file = none; name = none }

-- The C string "exit".
abbrev pub exit_text : List ℕ
exit_text = b'e' ∷ b'x' ∷ b'i' ∷ b't' ∷ 0 ∷ []

-- What `read` and `recv` return, and the buffer once the bytes stand at its start.
abbrev pub received : Option (List ℕ) → List ℕ → ℤ × List ℕ
received none buffer = (minus_one, buffer)
received (some bytes) buffer = (pos (length bytes), bytes ++ drop (length bytes) buffer)

module _ (host : Host) where
  open host use {World}

  -- `OpenFile::Read`, with what it leaves in the buffer.
  unfoldable pub file_read : OpenFile → List ℕ → ℕ → World → Exec (ℤ × List ℕ × OpenFile × World)
  file_read f buffer n w = do
    w₁ ← lseek host f.file f.current_offset 0 w
    let (bytes, w₂) = read_partial host f.file n w₁
    let (count, buffer') = received bytes buffer
    ok (count, buffer', record f { current_offset = f.current_offset +ℤ count }, w₂)

  -- `OpenFile::Write`
  unfoldable pub file_write : OpenFile → List ℕ → ℕ → World → Exec (ℤ × OpenFile × World)
  file_write f buffer n w = do
    w₁ ← lseek host f.file f.current_offset 0 w
    w₂ ← write_all host f.file (take n buffer) w₁
    ok (pos n, record f { current_offset = f.current_offset +ℤ pos n }, w₂)

  -- `OpenFile::Length`
  unfoldable pub file_size : OpenFile → World → Exec (ℤ × World)
  file_size f w = do w₁ ← lseek host f.file (pos 0) 2 w; ok (tell host f.file w₁)

  -- `FileDescriptor::Seek`: -1 stands for the end of the file.
  unfoldable pub seek : FileDescriptor → ℤ → World → Exec (ℤ × FileDescriptor × World)
  seek fd position w = do
    f ← defined fd.file
    (size, w₁) ← file_size f w
    if not (ltb_ℤ position size)
        then ok (minus_one, fd, w₁)
        else (if position ==ℤ minus_one
            then (file_size f w₁ >>= λ t.
                ok (t.0, record fd { file = some (record f { current_offset = t.0 }) }, t.1))
            else ok
                (position, record fd { file = some (record f { current_offset = position }) }, w₁))

  -- `FileDescriptor::Open_File`, through `FileSystem::Open` of the stub.
  unfoldable pub open_file : FileDescriptor → List ℕ → ℤ → World → Exec (ℤ × FileDescriptor × World)
  open_file fd name type w = do
    (file, w') ← open_for_read_write host name false w
    if file ==ℤ minus_one
        then ok (minus_one, record fd { file = none }, w')
        else ok (
          file,
          record {
            mode = if type ==ℤ pos 0 then read_write_file else read_file_mode;
            id = file;
            file = some (record { file = file; current_offset = pos 0; type = type });
            name = some name;
          },
          w',
        )

  -- `FileDescriptor::Close_File`
  unfoldable pub close_file : FileDescriptor → World → Exec (ℤ × FileDescriptor × World)
  close_file fd w =
      if fd.id ==ℤ minus_one
      then ok (minus_one, fd, w)
      else (close host fd.id w >>= λ t. ok (pos 1, blank, t.1))

  -- `FileDescriptor::Read`
  unfoldable pub read :
      FileDescriptor → List ℕ → ℕ → World → Exec (ℤ × List ℕ × FileDescriptor × World)
  read fd buffer n w = do
    f ← defined fd.file
    (count, buffer', f', w') ← file_read f buffer n w
    ok (count, buffer', record fd { file = some f' }, w')

  -- `FileDescriptor::Write`
  unfoldable pub write : FileDescriptor → List ℕ → ℕ → World → Exec (ℤ × FileDescriptor × World)
  write fd buffer n w =
      if fd.mode ==ℤ read_write_file
      then (defined fd.file >>= λ f.
          file_write f buffer n w >>= λ t. ok (t.0, record fd { file = some t.1 }, t.2))
      else ok (minus_one, fd, w)

  -- `FileDescriptor::SocketTCP`
  unfoldable pub socket_tcp : FileDescriptor → World → ℤ × FileDescriptor × World
  socket_tcp fd w =
      let (id, w') = host.socket w in
      if ltb_ℤ id (pos 0)
      then (minus_one, fd, w')
      else (id, record { mode = socket_mode; id = id; file = none; name = none }, w')

  -- `FileDescriptor::Connect`
  unfoldable pub connect_to : ℤ → List ℕ → ℤ → World → ℤ × World
  connect_to id address port w =
      let (r, w') = host.connect id address port w in
      if ltb_ℤ r (pos 0) then (minus_one, w') else (pos 0, w')

  -- `FileDescriptor::Send`
  unfoldable pub send_on : ℤ → List ℕ → ℕ → World → ℤ × World
  send_on id buffer len w =
      let (sent, w') = host.send id (take len buffer) w in
      if ltb_ℤ sent (pos 0)
      then (minus_one, w')
      else (if str_same buffer exit_text then pos 0 else sent, w')

  -- `FileDescriptor::Receive`
  unfoldable pub receive_on : ℤ → List ℕ → ℕ → World → ℤ × List ℕ × World
  receive_on id buffer len w =
      let (bytes, w') = host.receive id len w in
      let (count, buffer') = received bytes buffer in
      if ltb_ℤ count (pos 0)
      then (minus_one, buffer', w')
      else (if str_same buffer' exit_text then pos 0 else count, buffer', w')

  -- `FileDescriptor::Close_Socket`. The result of `close` is dropped.
  unfoldable pub close_socket : FileDescriptor → World → ℤ × FileDescriptor × World
  close_socket fd w =
      if fd.id ==ℤ minus_one
      then (minus_one, fd, w)
      else (pos 1, record fd { mode = minus_one; id = minus_one }, (host.close_file fd.id w).1)
