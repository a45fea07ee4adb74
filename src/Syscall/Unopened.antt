-- ===== src/Syscall/Unopened.antt =====
-- What the calls do with an identifier that is not open.
use project.Prelude.{
  ℕ, suc, ltb, ◌==◌, arith, ◌≡◌, refl, List, ℤ, pos, Exec, ok, undefined, halted, aborted,
  >>=-eq-ok, false, ap, sym,
}
use project.Host.{Host}
use project.UserMemory.{user_to_system}
use project.FileTable.{Table}
use project.FileTable.Slots.{Unused, not_found, get_file_descriptor-none}
use project.FileTable.Descriptor.{FileDescriptor}
use project.Syscall.{
  Kernel, copy_in, at_descriptor, sys_seek, sys_read, sys_write, read_into, write_from,
}

module _ (host : Host) where
  -- `GetFileDescriptor` gives NULL, which is followed.
  at_descriptor_none :
      {A : Type 0} (k : Kernel host) (id : ℤ)
      (f : FileDescriptor → host.World → Exec (A × FileDescriptor × host.World))
      → Unused k.files id
      → at_descriptor host k id f ≡ undefined
  unfolding at_descriptor
  at_descriptor_none k id f u =
      rw (get_file_descriptor-none k.files id (not_found k.files id u)) refl

  abbrev files_of : Kernel host → Exec (List ℕ × Kernel host) → Table
  files_of k (ok t) = t.1.files
  files_of k aborted = k.files
  files_of k undefined = k.files
  files_of k halted = k.files

  copy_in_files :
      (k : Kernel host) (addr n : ℕ) (t : List ℕ × Kernel host)
      → copy_in host k addr n ≡ ok t
      → t.1.files ≡ k.files
  unfolding copy_in
  copy_in_files k addr n t h =
      let (r, e, q) =
        >>=-eq-ok (user_to_system k.machine addr n) (λ r. ok (r.0, record k { machine = r.1 })) h in
      sym (ap (files_of k) q)

  -- For an identifier above the console's that no slot has, `SysSeek` follows a NULL pointer; so do
  -- `SysRead` and `SysWrite` once the user's buffer has been copied.
  pub unopened_id :
      (k : Kernel host) (j : ℕ) (position : ℤ) (addr n : ℕ) (t : List ℕ × Kernel host)
      → Unused k.files (pos (suc (suc j)))
      → copy_in host k addr n ≡ ok t
      → (sys_seek host k position (pos (suc (suc j))) ≡ undefined)
        × (sys_read host k addr n (pos (suc (suc j))) ≡ undefined)
        × (sys_write host k addr n (pos (suc (suc j))) ≡ undefined)
  unfolding sys_seek sys_read sys_write read_into write_from
  unopened_id k j position addr n t u c =
      let z = not_found k.files (pos (suc (suc j))) u in
      let u' : Unused t.1.files (pos (suc (suc j))) = rw (copy_in_files k addr n t c) u in
      let low : ltb (suc (suc j)) 0 ≡ false = ground arith in
      let i : (suc (suc j) == 0) ≡ false = ground arith in
      let o : (suc (suc j) == 1) ≡ false = ground arith in
      (
        rw (low, i, o, z) (at_descriptor_none k (pos (suc (suc j))) _ u),
        rw (low, i, o, z, c) (rw (at_descriptor_none t.1 (pos (suc (suc j))) _ u') refl),
        rw (low, i, o, z, c) (rw (at_descriptor_none t.1 (pos (suc (suc j))) _ u') refl),
      )
