-- ===== src/Disk/Files.antt =====
-- adapters/disk_storage.rs: reads and writes across the files, and the task that carries them out.
use tortue.Prelude.{
  ℕ, ◌+◌, ◌-◌, ◌^◌, ◌%◌, min, max, Bytes, List, [], ◌∷◌, ◌++◌, Bool, true, false, ◌||◌, none, some,
  Result, ok, err, ◌>>=◌, Exit, done, panicked, and_then, leb, ◌==◌, if◌then◌else◌, length, slice,
  checked_add,
}

-- `std::io::Error` by its kind: the two that the source makes, and any from the system.
pub data IoError : Type 0 where
  invalid_input other device : IoError

-- tokio's `File`: `seek` from the start, `write_all`, and `take(n)` with `read_to_end`.
pub record FileIo : Type 1 where
  pub File : Type 0
  pub seek : ℕ → File → Result IoError File
  pub write_all : Bytes → File → Result IoError File
  pub read_to_end : ℕ → File → Result IoError (Bytes × File)
  pub flush : File → Result IoError File

pub record OutputFile (F : Type 0) : Type 0 where
  pub file : F
  pub len : ℕ
  pub offset : ℕ

-- A read says whether the other end of its reply is closed by the time it is its turn.
pub data DiskCommand : Type 0 where
  write : ℕ → Bytes → DiskCommand
  read : ℕ → ℕ → Bool → DiskCommand
  flush : DiskCommand

pub data Reply : Type 0 where
  bytes_read : Result IoError Bytes → Reply
  flushed : Result IoError (Unit {0}) → Reply

module _ (io : FileIo) where
  abbrev pub Files : Type 0
  Files = List (OutputFile io.File)

  unfoldable pub write_at : ℕ → Bytes → io.File → Result IoError io.File
  write_at offset d f = do g ← io.seek offset f; io.write_all d g

  unfoldable pub read_from : ℕ → ℕ → io.File → Result IoError (Bytes × io.File)
  read_from offset len f = do g ← io.seek offset f; io.read_to_end len g

  -- `?` on a call that writes to a file.
  abbrev pub put_back :
      OutputFile io.File → Result IoError io.File → Result IoError (OutputFile io.File)
  put_back f (ok g) = ok (record f { file = g })
  put_back f (err e) = err e

  -- One round of the loop of `write_to_files`; the slice of the data may panic.
  unfoldable pub write_file :
      ℕ → Bytes → OutputFile io.File → Exit (Result IoError (OutputFile io.File))
  unfolding write_at
  write_file offset d f =
      let write_end = (offset + length d) % 2 ^ 64 in
      let file_end = (f.offset + f.len) % 2 ^ 64 in
      let write_start = max offset f.offset in
      let stop = min write_end file_end in
      if leb file_end offset || leb write_end f.offset
      then done (ok f)
      else elim (slice (write_start - offset) ((stop + 2 ^ 64 - write_start) % 2 ^ 64) d) [
        | none ↦ panicked
        | some part ↦ done (put_back f (write_at (write_start - f.offset) part f.file))
      ]

  -- An error leaves the files before it written, and ends the loop.
  unfoldable pub write_to_files : ℕ → Bytes → Files → Exit (Result IoError (Unit {0}) × Files)
  write_to_files offset d [] = done (ok tt, [])
  write_to_files offset d (f ∷ files) = elim (write_file offset d f) [
    | panicked ↦ panicked
    | done (err e) ↦ done (err e, f ∷ files)
    | done (ok g) ↦ and_then (write_to_files offset d files) (λ x. done (x.0, g ∷ x.1))
  ]

  -- The loop of `read_from_files`: the buffer is what was read before. A file that is read has another position.
  unfoldable pub read_files : ℕ → ℕ → Bytes → Files → Result IoError Bytes × Files
  unfolding read_from
  read_files offset read_end buffer [] = (ok buffer, [])
  read_files offset read_end buffer (f ∷ files) =
      let start = max offset f.offset in
      let skipped = read_files offset read_end buffer files in
      elim (checked_add f.offset f.len) [
        | none ↦ (err other, f ∷ files)
        | some file_end ↦
            let stop = min read_end file_end in
            if leb stop start
            then (skipped.0, f ∷ skipped.1)
            else elim (read_from (start - f.offset) (stop - start) f.file) [
              | err e ↦ (err e, f ∷ files)
              | ok (got, g) ↦
                  let rest = read_files offset read_end (buffer ++ got) files in
                  if length got == stop - start
                  then (rest.0, record f { file = g } ∷ rest.1)
                  else (ok (buffer ++ got), record f { file = g } ∷ files)
            ]
      ]

  unfoldable pub read_from_files : ℕ → ℕ → Files → Result IoError Bytes × Files
  unfolding read_files
  read_from_files offset len files = elim (checked_add offset len) [
    | none ↦ (err other, files)
    | some read_end ↦ read_files offset read_end [] files
  ]

  unfoldable pub flush_files : Files → Result IoError (Unit {0}) × Files
  flush_files [] = (ok tt, [])
  flush_files (f ∷ files) = elim (io.flush f.file) [
    | err e ↦ (err e, f ∷ files)
    | ok g ↦ let rest = flush_files files in (rest.0, record f { file = g } ∷ rest.1)
  ]

  -- The task: the commands that it receives, the replies that it sends. It ends at an error of a
  -- write or a flush, and what is then in the queue gets no reply.
  unfoldable pub worker : List DiskCommand → Files → Exit (List Reply × Files)
  unfolding write_to_files read_from_files flush_files
  worker [] files = done ([], files)
  worker (write offset d ∷ commands) files = elim (write_to_files offset d files) [
    | panicked ↦ panicked
    | done (err e, written) ↦ done ([], written)
    | done (ok u, written) ↦ worker commands written
  ]
  worker (read offset len true ∷ commands) files = worker commands files
  worker (read offset len false ∷ commands) files =
      let x = read_from_files offset len files in
      and_then (worker commands x.1) (λ y. done (bytes_read x.0 ∷ y.0, y.1))
  worker (flush ∷ commands) files =
      let (r, left) = flush_files files in
      elim r [
        | err e ↦ done (flushed (err e) ∷ [], left)
        | ok u ↦ and_then (worker commands left) (λ y. done (flushed (ok tt) ∷ y.0, y.1))
      ]
