-- ===== src/Disk/Storage.antt =====
-- adapters/disk_storage.rs, `DiskStorage`: where a block stands, and the commands to its task.
use tortue.Prelude.{
  ℕ, Bytes, Bool, not, ◌||◌, Option, Result, ok, err, ok_or, ◌>>=◌, leb, ltb, ◌==◌, if◌then◌else◌,
  length, checked_add, checked_mul,
}
use tortue.Net.{BlockRange}
use tortue.Disk.Files.{IoError, invalid_input, DiskCommand, write, read}

pub record DiskStorage : Type 0 where
  pub piece_length : ℕ
  pub piece_count : ℕ
  pub total_size : ℕ

-- `checked_add` and `checked_mul` with `ok_or_else(invalid_range)`
abbrev pub or_invalid : Option ℕ → Result IoError ℕ
or_invalid o = ok_or o invalid_input

-- An early return of an error.
abbrev pub refuse_if {ℓ} : {E : Type ℓ} → Bool → E → Result E (Unit {0})
refuse_if b e = if b then err e else ok tt

unfoldable pub storage_offset : DiskStorage → BlockRange → Result IoError ℕ
storage_offset s range = do
  piece_end ← or_invalid (checked_add range.piece_offset range.len)
  outside ←
      refuse_if
        (leb s.piece_count range.piece_index || range.len == 0 || ltb s.piece_length piece_end)
        invalid_input
  start ← or_invalid (checked_mul range.piece_index s.piece_length)
  offset ← or_invalid (checked_add start range.piece_offset)
  stop ← or_invalid (checked_add offset range.len)
  beyond ← refuse_if (ltb s.total_size stop) invalid_input
  ok offset

-- `write` and `read`: the command that goes to the task.
unfoldable pub write_command : DiskStorage → BlockRange → Bytes → Result IoError DiskCommand
unfolding storage_offset
write_command s range d =
    if not (length d == range.len)
    then err invalid_input
    else (do offset ← storage_offset s range; ok (write offset d))

unfoldable pub read_command : DiskStorage → BlockRange → Bool → Result IoError DiskCommand
unfolding storage_offset
read_command s range closed = do offset ← storage_offset s range; ok (read offset range.len closed)
