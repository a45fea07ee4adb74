-- ===== src/Exception/Asks.antt =====
-- How a user program asks for a call on files or sockets: by the numbers and the prototypes of
-- userprog/syscall.h, with the arguments in registers 4, 5 and 6 from the first on.
use project.Prelude.{ℕ, ◌≡◌, refl, pos}
use project.Mips.Word.{to_int}
use project.Syscall.Session.{
  FileCall, create, remove, seek, open_file, close, close_socket, read, write, socket_tcp, connect,
  send, receive,
}
use project.Exception.{file_call, request}

-- The call, the number in register 2, and the registers 4, 5 and 6.
unfoldable pub Asks : FileCall → ℕ → ℕ → ℕ → ℕ → Type 0
Asks (create name) number r4 r5 r6 = (number ≡ 4) × (r4 ≡ name)
Asks (remove name) number r4 r5 r6 = (number ≡ 5) × (r4 ≡ name)
Asks (open_file name type) number r4 r5 r6 = (number ≡ 6) × (r4 ≡ name) × (to_int r5 ≡ type)
Asks (read buffer size id) number r4 r5 r6 =
    (number ≡ 7) × (r4 ≡ buffer) × (to_int r5 ≡ pos size) × (to_int r6 ≡ id)
Asks (write buffer size id) number r4 r5 r6 =
    (number ≡ 8) × (r4 ≡ buffer) × (to_int r5 ≡ pos size) × (to_int r6 ≡ id)
Asks (seek position id) number r4 r5 r6 = (number ≡ 9) × (to_int r4 ≡ position) × (to_int r5 ≡ id)
Asks (close id) number r4 r5 r6 = (number ≡ 10) × (to_int r4 ≡ id)
Asks socket_tcp number r4 r5 r6 = number ≡ 16
Asks (connect id ip port) number r4 r5 r6 =
    (number ≡ 17) × (to_int r4 ≡ id) × (r5 ≡ ip) × (to_int r6 ≡ port)
Asks (send id buffer size) number r4 r5 r6 =
    (number ≡ 18) × (to_int r4 ≡ id) × (r5 ≡ buffer) × (to_int r6 ≡ pos size)
Asks (receive id buffer size) number r4 r5 r6 =
    (number ≡ 19) × (to_int r4 ≡ id) × (r5 ≡ buffer) × (to_int r6 ≡ pos size)
Asks (close_socket id) number r4 r5 r6 = (number ≡ 20) × (to_int r4 ≡ id)

-- The handler takes the registers so.
pub asked :
    (c : FileCall) (number r4 r5 r6 : ℕ)
    → Asks c number r4 r5 r6
    → request number r4 r5 r6 ≡ file_call c
unfolding Asks request
asked (create name) number r4 r5 r6 a = rw (a.0, a.1) refl
asked (remove name) number r4 r5 r6 a = rw (a.0, a.1) refl
asked (open_file name type) number r4 r5 r6 a = rw (a.0, a.1, a.2) refl
asked (read buffer size id) number r4 r5 r6 a = rw (a.0, a.1, a.2, a.3) refl
asked (write buffer size id) number r4 r5 r6 a = rw (a.0, a.1, a.2, a.3) refl
asked (seek position id) number r4 r5 r6 a = rw (a.0, a.1, a.2) refl
asked (close id) number r4 r5 r6 a = rw (a.0, a.1) refl
asked socket_tcp number r4 r5 r6 a = rw a refl
asked (connect id ip port) number r4 r5 r6 a = rw (a.0, a.1, a.2, a.3) refl
asked (send id buffer size) number r4 r5 r6 a = rw (a.0, a.1, a.2, a.3) refl
asked (receive id buffer size) number r4 r5 r6 a = rw (a.0, a.1, a.2, a.3) refl
asked (close_socket id) number r4 r5 r6 a = rw (a.0, a.1) refl
