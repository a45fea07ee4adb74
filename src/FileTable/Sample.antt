-- ===== src/FileTable/Sample.antt =====
-- A host to run the table on: it opens every file as 5, every socket as 6, and has no data. Its
-- state is the number of calls so far.
use project.Prelude.{ℕ, ◌+◌, [], some, pos, length}
use project.Host.{Host}

abbrev pub sample_host : Host
sample_host = record {
  World = ℕ;
  open_file = λ name create w. (pos 5, w + 1);
  close_file = λ fd w. (pos 0, w + 1);
  read_file = λ fd n w. (some [], w + 1);
  write_file = λ fd bytes w. (pos (length bytes), w + 1);
  seek_file = λ fd offset whence w. (pos 0, w + 1);
  unlink = λ name w. (pos 0, w + 1);
  socket = λ w. (pos 6, w + 1);
  connect = λ fd address port w. (pos 0, w + 1);
  send = λ fd bytes w. (pos (length bytes), w + 1);
  receive = λ fd n w. (some [], w + 1);
  get_char = λ w. (10, w + 1);
  put_char = λ c w. w + 1;
}
