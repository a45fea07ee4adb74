-- ===== src/FileTable/Tests.antt =====
-- The theorems about the table of descriptors, on the host of FileTable/Sample.
use project.Prelude.{
  ℕ, ◌≤◌, ◌<◌, ◌≡◌, ◌≢◌, refl, arith, List, [], ◌∷◌, none, ℤ, pos, minus_one, ok, undefined, set,
  get_or-replicate, ap, sym, ◌∙◌,
}
use project.FileTable.{
  Table, capacity, new_table, slot, is_opening_with_name, get_file_descriptor, open_entry,
  close_entry,
}
use project.FileTable.Descriptor.{FileDescriptor, blank, socket_mode}
use project.FileTable.Valid.{IsValid, IsSlot, a_socket, new_table-IsValid, set-IsValid}
use project.FileTable.Slots.{opened, Unused}
use project.FileTable.Behaviour.{Opens, open_new, close-open, is_opening_with_name_socket}
use project.FileTable.Sample.{sample_host}

abbrev file_name : List ℕ
file_name = b'a' ∷ 0 ∷ []

abbrev a_socket_slot : FileDescriptor
a_socket_slot = record { mode = socket_mode; id = pos 6; file = none; name = none }

a_socket_slot-IsSlot : IsSlot a_socket_slot
a_socket_slot-IsSlot =
    a_socket (record { mode = refl; open_id = λ e. cc; file = refl; name = refl })

blank-Unused : (id : ℤ) → minus_one ≢ id → Unused new_table id
blank-Unused id ne i h =
    ne (sym (ap (λ (d : FileDescriptor). d.id) (get_or-replicate capacity i blank)) ∙ h)

abbrev with_socket : Table
with_socket = set new_table 2 a_socket_slot

with_socket-IsValid : IsValid with_socket
with_socket-IsValid =
    set-IsValid 2 a_socket_slot new_table-IsValid a_socket_slot-IsSlot (omega arith)

new_5 : Unused new_table (pos 5)
new_5 = blank-Unused (pos 5) (λ e. cc)

first_open :
    Opens sample_host new_table file_name
      (pos 0)
      (pos 5)
      (open_entry sample_host new_table file_name (pos 0) 0)
first_open =
    open_new sample_host new_table file_name (pos 0) 0 new_table-IsValid (λ e. cc) new_5 2
      (omega arith) (omega arith) refl

close-open_example :
    let o = first_open in
    (close_entry sample_host (set new_table o.at (opened file_name (pos 0) (pos 5))) (pos 5) 1
      ≡ ok (pos 1, set new_table o.at blank, 2))
    × (get_file_descriptor (set new_table o.at blank) (pos 5) ≡ none)
close-open_example =
    close-open sample_host new_table file_name (pos 0) (pos 5) 0 1 new_table-IsValid (λ e. cc) new_5
      first_open refl

nothing_below : (j : ℕ) → 2 ≤ j → j < 2 → (slot with_socket j).mode ≡ minus_one
nothing_below j a b = absurd (omega arith)

is_opening_with_name_socket_example : is_opening_with_name with_socket file_name ≡ undefined
is_opening_with_name_socket_example =
    is_opening_with_name_socket with_socket file_name 2 with_socket-IsValid (omega arith)
      (omega arith) refl nothing_below
