-- ===== src/Host.antt =====
-- The operating system under the kernel, and the wrappers of lib/sysdep.cc around its calls. The
-- calls are fields of a record, over an unknown state of the world.
use project.Prelude.{
  ℕ, Bool, true, false, not, ◌||◌, List, Option, ℤ, pos, Exec, ok, ◌>>◌, assert, ltb_ℤ, ◌==ℤ◌,
  length,
}

pub record Host : Type 1 where
  pub World : Type 0
  -- `open`: read-write; with `true`, the file is created or truncated. -1 where it fails.
  pub open_file : List ℕ → Bool → World → ℤ × World
  pub close_file : ℤ → World → ℤ × World
  -- `read`: the bytes, or `none` for -1.
  pub read_file : ℤ → ℕ → World → Option (List ℕ) × World
  pub write_file : ℤ → List ℕ → World → ℤ × World
  -- `lseek`, with the offset and 0, 1 or 2 for SEEK_SET, SEEK_CUR, SEEK_END.
  pub seek_file : ℤ → ℤ → ℕ → World → ℤ × World
  pub unlink : List ℕ → World → ℤ × World
  pub socket : World → ℤ × World
  -- `connect`, with the descriptor, the address as text and the port.
  pub connect : ℤ → List ℕ → ℤ → World → ℤ × World
  pub send : ℤ → List ℕ → World → ℤ × World
  -- `recv`: the bytes, or `none` for -1.
  pub receive : ℤ → ℕ → World → Option (List ℕ) × World
  -- A `char` of the console, as its byte; 255 is EOF.
  pub get_char : World → ℕ × World
  pub put_char : ℕ → World → World

module _ (host : Host) where
  open host use {World}

  -- `OpenForWrite`
  unfoldable pub open_for_write : List ℕ → World → Exec (ℤ × World)
  open_for_write name w =
      let (fd, w') = host.open_file name true w in assert (not (ltb_ℤ fd (pos 0))) >> ok (fd, w')

  -- `OpenForReadWrite`
  unfoldable pub open_for_read_write : List ℕ → Bool → World → Exec (ℤ × World)
  open_for_read_write name crash_on_error w =
      let (fd, w') = host.open_file name false w in
      assert (not crash_on_error || not (ltb_ℤ fd (pos 0))) >> ok (fd, w')

  -- `Close`
  unfoldable pub close : ℤ → World → Exec (ℤ × World)
  close fd w = let (r, w') = host.close_file fd w in assert (not (ltb_ℤ r (pos 0))) >> ok (r, w')

  -- `ReadPartial`
  abbrev pub read_partial : ℤ → ℕ → World → Option (List ℕ) × World
  read_partial fd n w = host.read_file fd n w

  -- `WriteFile`
  unfoldable pub write_all : ℤ → List ℕ → World → Exec World
  write_all fd bytes w =
      let (r, w') = host.write_file fd bytes w in assert (r ==ℤ pos (length bytes)) >> ok w'

  -- `Lseek`
  unfoldable pub lseek : ℤ → ℤ → ℕ → World → Exec World
  lseek fd offset whence w =
      let (r, w') = host.seek_file fd offset whence w in assert (not (ltb_ℤ r (pos 0))) >> ok w'

  -- `Tell`
  abbrev pub tell : ℤ → World → ℤ × World
  tell fd w = host.seek_file fd (pos 0) 1 w

  -- `Unlink` gives a `bool`: whether `unlink` returned a non-zero number.
  unfoldable pub unlink_failed : List ℕ → World → Bool × World
  unlink_failed name w = let (r, w') = host.unlink name w in (not (r ==ℤ pos 0), w')
