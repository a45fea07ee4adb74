-- ===== src/Syscall/Files.antt =====
-- The operations on descriptors are safe: on a slot with a file, and keep the slot well formed.
use project.Prelude.{
  ℕ, zero, suc, [], ◌∷◌, ◌+◌, ◌≤◌, ◌≡◌, ◌≢◌, refl, inl, inr, ap, ◌∙◌, sym, arith, List, none, some,
  Option, ℤ, pos, minus_one, ok, ltb_ℤ, ◌==ℤ◌, length, length-append, drop, take, Bool-cases,
}
use project.Host.{Host, lseek, write_all, close}
use project.FileTable.Descriptor.{
  FileDescriptor, OpenFile, received, read_write_file, file_read, file_write, file_size, seek, read,
  write, close_file,
}
use project.FileTable.Valid.{IsSlot, free, a_file, a_socket, blank-IsSlot}
use project.Syscall.Safety.{Safe, Safe-ok, Safe->>=, Safe-assert}

-- The host gives no more bytes than it was asked for.
pub record IsBounded (host : Host) : Type 0 where
  pub read :
      (fd : ℤ) (n : ℕ) (w : host.World) (bytes : List ℕ)
      → (host.read_file fd n w).0 ≡ some bytes
      → length bytes ≤ n
  pub receive :
      (fd : ℤ) (n : ℕ) (w : host.World) (bytes : List ℕ)
      → (host.receive fd n w).0 ≡ some bytes
      → length bytes ≤ n

length-drop :
    {A : Type 0} (n : ℕ) (xs : List A) → n ≤ length xs → n + length (drop n xs) ≡ length xs
length-drop zero xs h = omega arith
length-drop (suc n) [] h = absurd (omega arith)
length-drop (suc n) (x ∷ xs) h = omega (arith, length-drop n xs (omega arith))

-- Then the buffer keeps its length.
pub length-received :
    (bytes : Option (List ℕ)) (buffer : List ℕ) (n : ℕ)
    → ((b : List ℕ) → bytes ≡ some b → length b ≤ n)
    → n ≤ length buffer
    → length (received bytes buffer).1 ≡ length buffer
length-received none buffer n h le = refl
length-received (some b) buffer n h le =
    length-append b (drop (length b) buffer)
    ∙ length-drop (length b) buffer (omega (arith, h b refl))

-- The same file at another offset.
moved :
    (fd : FileDescriptor) (f : OpenFile) (offset : ℤ)
    → IsSlot fd
    → fd.id ≢ minus_one
    → fd.file ≡ some f
    → IsSlot (record fd { file = some (record f { current_offset = offset }) })
moved fd f offset (free m i) ne h = absurd (ne i)
moved fd f offset (a_socket s) ne h = absurd (let e = sym s.file ∙ h in cc)
moved fd f offset (a_file s) ne h = a_file (record {
  mode = s.mode;
  open_id = s.open_id;
  object = record f { current_offset = offset };
  file = refl;
  same_id =
      ap (λ (g : Option OpenFile). elim g [ none ↦ f.file | some o ↦ o.file ]) (sym h ∙ s.file)
      ∙ s.same_id;
  text = s.text;
  name = s.name;
})

module _ (host : Host) where
  open host use {World}

  -- The slot after an operation is well formed.
  abbrev pub Slotted {ℓ} : {A : Type ℓ} → A × FileDescriptor × World → Type 0
  Slotted t = IsSlot t.1

  lseek-Safe :
      (fd offset : ℤ) (whence : ℕ) (w : World)
      → Safe (λ w'. Unit {0}) (lseek host fd offset whence w)
  unfolding lseek
  lseek-Safe fd offset whence w = Safe-assert (λ w'. Unit {0}) _ (ok _) (Safe-ok _ _ tt)

  write_all-Safe :
      (fd : ℤ) (bytes : List ℕ) (w : World) → Safe (λ w'. Unit {0}) (write_all host fd bytes w)
  unfolding write_all
  write_all-Safe fd bytes w = Safe-assert (λ w'. Unit {0}) _ (ok _) (Safe-ok _ _ tt)

  file_size-Safe : (f : OpenFile) (w : World) → Safe (λ t. Unit {0}) (file_size host f w)
  unfolding file_size
  file_size-Safe f w =
      Safe->>= (λ w'. Unit {0}) (λ t. Unit {0}) (lseek host f.file (pos 0) 2 w) _
        (lseek-Safe f.file (pos 0) 2 w) (λ w' u. Safe-ok _ _ tt)

  pub seek-Safe :
      (fd : FileDescriptor) (f : OpenFile) (position : ℤ) (w : World)
      → IsSlot fd
      → fd.id ≢ minus_one
      → fd.file ≡ some f
      → Safe Slotted (seek host fd position w)
  unfolding seek
  seek-Safe fd f position w s ne h = rw h (
      Safe->>= (λ t. Unit {0}) Slotted (file_size host f w) _ (file_size-Safe f w)
        (λ t u. elim (Bool-cases (ltb_ℤ position t.0)) [
          | inr e ↦ rw e (Safe-ok _ _ (moved fd f f.current_offset s ne h))
          | inl e ↦ rw e (elim (Bool-cases (position ==ℤ minus_one)) [
            | inl e' ↦ rw e' (
                Safe->>= (λ t. Unit {0}) Slotted (file_size host f t.1) _ (file_size-Safe f t.1)
                  (λ t' u'. Safe-ok _ _ (moved fd f t'.0 s ne h)))
            | inr e' ↦ rw e' (Safe-ok _ _ (moved fd f position s ne h))
          ])
        ]))

  abbrev Filled : OpenFile → List ℕ → ℤ × List ℕ × OpenFile × World → Type 0
  Filled f buffer t =
      ((offset : ℤ) × (t.2 ≡ record f { current_offset = offset })) × (length t.1 ≡ length buffer)

  file_read-Safe :
      (f : OpenFile) (buffer : List ℕ) (n : ℕ) (w : World)
      → IsBounded host
      → n ≤ length buffer
      → Safe (Filled f buffer) (file_read host f buffer n w)
  unfolding file_read
  file_read-Safe f buffer n w b le =
      Safe->>= (λ w'. Unit {0}) (Filled f buffer) (lseek host f.file f.current_offset 0 w) _
        (lseek-Safe f.file f.current_offset 0 w)
        (λ w₁ u. Safe-ok (Filled f buffer) _ (
          (_, refl),
          length-received (host.read_file f.file n w₁).0 buffer n (b.read f.file n w₁) le,
        ))

  abbrev Filed : OpenFile → ℤ × OpenFile × World → Type 0
  Filed f t = (offset : ℤ) × (t.1 ≡ record f { current_offset = offset })

  file_write-Safe :
      (f : OpenFile) (buffer : List ℕ) (n : ℕ) (w : World)
      → Safe (Filed f) (file_write host f buffer n w)
  unfolding file_write
  file_write-Safe f buffer n w =
      Safe->>= (λ w'. Unit {0}) (Filed f) (lseek host f.file f.current_offset 0 w) _
        (lseek-Safe f.file f.current_offset 0 w)
        (λ w₁ u.
          Safe->>= (λ w'. Unit {0}) (Filed f) (write_all host f.file (take n buffer) w₁) _
            (write_all-Safe f.file (take n buffer) w₁) (λ w₂ v. Safe-ok (Filed f) _ (_, refl)))

  -- `Read` keeps the length of the buffer too.
  abbrev pub ReadInto : List ℕ → ℤ × List ℕ × FileDescriptor × World → Type 0
  ReadInto buffer t = IsSlot t.2 × (length t.1 ≡ length buffer)

  pub read-Safe :
      (fd : FileDescriptor) (f : OpenFile) (buffer : List ℕ) (n : ℕ) (w : World)
      → IsBounded host
      → n ≤ length buffer
      → IsSlot fd
      → fd.id ≢ minus_one
      → fd.file ≡ some f
      → Safe (ReadInto buffer) (read host fd buffer n w)
  unfolding read
  read-Safe fd f buffer n w b le s ne h = rw h (
      Safe->>= (Filled f buffer) (ReadInto buffer) (file_read host f buffer n w) _
        (file_read-Safe f buffer n w b le)
        (λ t q. Safe-ok (ReadInto buffer) _ (rw q.0.1 (moved fd f q.0.0 s ne h), q.1)))

  pub write-Safe :
      (fd : FileDescriptor) (f : OpenFile) (buffer : List ℕ) (n : ℕ) (w : World)
      → IsSlot fd
      → fd.id ≢ minus_one
      → fd.file ≡ some f
      → Safe Slotted (write host fd buffer n w)
  unfolding write
  write-Safe fd f buffer n w s ne h = elim (Bool-cases (fd.mode ==ℤ read_write_file)) [
    | inr e ↦ rw e (Safe-ok _ _ s)
    | inl e ↦
        rw (e, h)
          (Safe->>= (Filed f) Slotted (file_write host f buffer n w) _
            (file_write-Safe f buffer n w) (λ t q. Safe-ok _ _ (rw q.1 (moved fd f q.0 s ne h))))
  ]

  pub close_file-Safe :
      (fd : FileDescriptor) (w : World) → IsSlot fd → Safe Slotted (close_file host fd w)
  unfolding close_file close
  close_file-Safe fd w s = elim (Bool-cases (fd.id ==ℤ minus_one)) [
    | inl e ↦ rw e (Safe-ok _ _ s)
    | inr e ↦ rw e (
        Safe->>= (λ t. Unit {0}) Slotted (close host fd.id w) _
          (Safe-assert (λ t. Unit {0}) _ (ok _) (Safe-ok _ _ tt)) (λ t u. Safe-ok _ _ blank-IsSlot))
  ]
