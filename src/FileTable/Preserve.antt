-- ===== src/FileTable/Preserve.antt =====
-- Every operation of the table returns and keeps it well formed.
use project.Prelude.{
  ℕ, ◌≡◌, refl, ◌⊎◌, inl, inr, ◌≢◌, false, arith, ℤ, pos, minus_one, List, Returns, Returns->>=,
  ltb_ℤ, ◌==ℤ◌, eq_of_==ℤ, Bool-cases, if◌then◌else◌,
}
use project.Host.{Host, open_for_read_write, close}
use project.FileTable.{Table, slot, open_entry, close_entry, socket_entry, close_socket_entry}
use project.FileTable.Descriptor.{
  FileDescriptor, read_write_file, read_file_mode, open_file, close_file, socket_tcp, close_socket,
}
use project.FileTable.Search.{find_free_slot_cases, is_opening_cases}
use project.FileTable.Valid.{IsSlot, free, a_file, a_socket, IsValid, blank-IsSlot, set-IsValid}

-- A slot whose mode is -1 has the identifier -1.
pub free_slot : (fd : FileDescriptor) → IsSlot fd → fd.mode ≡ minus_one → fd.id ≡ minus_one
free_slot fd (free m i) h = i
free_slot fd (a_file f) h = ground (arith, f.mode)
free_slot fd (a_socket s) h = absurd (cc (s.mode))

mode_of :
    (type : ℤ)
    → ((if type ==ℤ pos 0 then read_write_file else read_file_mode) ≡ read_write_file)
      ⊎ ((if type ==ℤ pos 0 then read_write_file else read_file_mode) ≡ read_file_mode)
mode_of type = elim (Bool-cases (type ==ℤ pos 0)) [
  | inl e ↦ rw e (inl refl)
  | inr e ↦ rw e (inr refl)
]

ne_of_==ℤ : (a : ℤ) → (a ==ℤ minus_one) ≡ false → a ≢ minus_one
ne_of_==ℤ a e h = let e' = rw h at e in cc

module _ (host : Host) where
  open host use {World}

  abbrev pub Good : ℤ × Table × World → Type 0
  Good t = IsValid t.1

  open_file-IsSlot :
      (fd : FileDescriptor) (name : List ℕ) (type : ℤ) (w : World)
      → fd.mode ≡ minus_one
      → fd.id ≡ minus_one
      → Returns (λ t. IsSlot t.1) (open_file host fd name type w)
  unfolding open_file open_for_read_write
  open_file-IsSlot fd name type w m i =
      elim (Bool-cases ((host.open_file name false w).0 ==ℤ minus_one)) [
        | inl e ↦ rw e (record { out = _; is_out = refl; holds = free m i })
        | inr e ↦ rw e (record {
          out = _;
          is_out = refl;
          holds = a_file (record {
            mode = mode_of type;
            open_id = λ h. ne_of_==ℤ _ e h;
            object = _;
            file = refl;
            same_id = refl;
            text = name;
            name = refl;
          });
        })
      ]

  -- `Open` returns and keeps the table well formed, whatever the host does.
  pub open_entry-IsValid :
      (table : Table) (name : List ℕ) (type : ℤ) (w : World)
      → IsValid table
      → Returns Good (open_entry host table name type w)
  unfolding open_entry
  open_entry-IsValid table name type w v = elim (find_free_slot_cases table) [
    | inr n ↦ rw n.is_none (record { out = _; is_out = refl; holds = v })
    | inl f ↦
        let m = eq_of_==ℤ _ _ f.passes in
        rw f.is_at (
          Returns->>= (λ t. IsSlot t.1) Good (open_file host (slot table f.at) name type w) _
            (open_file-IsSlot (slot table f.at) name type w m (free_slot _ (v.slots f.at) m))
            λ t g. record { out = _; is_out = refl; holds = set-IsValid f.at t.1 v g f.below })
  ]

  close_file-IsSlot :
      (fd : FileDescriptor) (w : World)
      → IsSlot fd
      → ltb_ℤ (host.close_file fd.id w).0 (pos 0) ≡ false
      → Returns (λ t. IsSlot t.1) (close_file host fd w)
  unfolding close_file close
  close_file-IsSlot fd w s h = elim (Bool-cases (fd.id ==ℤ minus_one)) [
    | inl e ↦ rw e (record { out = _; is_out = refl; holds = s })
    | inr e ↦ rw (e, h) (record { out = _; is_out = refl; holds = blank-IsSlot })
  ]

  -- `Close` keeps the table well formed, and returns where the host can close the descriptor.
  pub close_entry-IsValid :
      (table : Table) (id : ℤ) (w : World)
      → IsValid table
      → ltb_ℤ (host.close_file id w).0 (pos 0) ≡ false
      → Returns Good (close_entry host table id w)
  unfolding close_entry
  close_entry-IsValid table id w v h = elim (is_opening_cases table id) [
    | inr n ↦ rw n.is_none (record { out = _; is_out = refl; holds = v })
    | inl f ↦ rw f.is_at (
        Returns->>= (λ t. IsSlot t.1) Good (close_file host (slot table f.at) w) _
          (close_file-IsSlot (slot table f.at) w (v.slots f.at)
            (rw (eq_of_==ℤ (slot table f.at).id id f.passes) h))
          λ t g. record { out = _; is_out = refl; holds = set-IsValid f.at t.1 v g f.below })
  ]

  socket_tcp-IsSlot :
      (fd : FileDescriptor) (w : World) → IsSlot fd → IsSlot (socket_tcp host fd w).1
  unfolding socket_tcp
  socket_tcp-IsSlot fd w s = elim (Bool-cases (ltb_ℤ (host.socket w).0 (pos 0))) [
    | inl e ↦ rw e s
    | inr e ↦ rw e (
        a_socket (record {
          mode = refl;
          open_id = λ h. let e' = rw h at e in cc;
          file = refl;
          name = refl;
        }))
  ]

  -- `SocketTCP` returns and keeps the table well formed.
  pub socket_entry-IsValid :
      (table : Table) (w : World) → IsValid table → Returns Good (socket_entry host table w)
  unfolding socket_entry
  socket_entry-IsValid table w v = elim (find_free_slot_cases table) [
    | inr n ↦ rw n.is_none (record { out = _; is_out = refl; holds = v })
    | inl f ↦ rw f.is_at (record {
      out = _;
      is_out = refl;
      holds = set-IsValid f.at _ v (socket_tcp-IsSlot (slot table f.at) w (v.slots f.at)) f.below;
    })
  ]

  close_socket-IsSlot :
      (fd : FileDescriptor) (w : World) → IsSlot fd → IsSlot (close_socket host fd w).1
  unfolding close_socket
  close_socket-IsSlot fd w s = elim (Bool-cases (fd.id ==ℤ minus_one)) [
    | inl e ↦ rw e s
    | inr e ↦ rw e (free refl refl)
  ]

  -- `Close_Socket` returns and keeps the table well formed.
  pub close_socket_entry-IsValid :
      (table : Table) (id : ℤ) (w : World)
      → IsValid table
      → Returns Good (close_socket_entry host table id w)
  unfolding close_socket_entry
  close_socket_entry-IsValid table id w v = elim (is_opening_cases table id) [
    | inr n ↦ rw n.is_none (record { out = _; is_out = refl; holds = v })
    | inl f ↦ rw f.is_at (record {
      out = _;
      is_out = refl;
      holds = set-IsValid f.at _ v (close_socket-IsSlot (slot table f.at) w (v.slots f.at)) f.below;
    })
  ]
