-- ===== src/Disk/Create.antt =====
-- adapters/disk_storage.rs, `DiskStorage::new`: how the files are opened.
use tortue.Prelude.{
  ℕ, ◌+◌, ◌%◌, ◌^◌, List, [], ◌∷◌, Bool, not, Option, none, some, Result, ok, err, map_err, ltb,
  if◌then◌else◌, length,
}
use tortue.Torrent
use tortue.Torrent.{Metainfo, Mode, single, multiple, total_size}
use tortue.Disk.Files.{IoError, FileIo, Files}
use tortue.Disk.Paths.{
  Error, io, invalid_file, FilePath, empty_path, path_of, from_iter, build_path, parent,
}
use tortue.Disk.Storage.{DiskStorage}

-- A call on the disk leaves a state, whether it succeeds or not.
abbrev pub Io : Type 0 → Type 0 → Type 0
Io S A = S → Result Error A × S

abbrev pub follow : {S A B : Type 0} → Result Error A × S → (A → Io S B) → Result Error B × S
follow (ok x, s) k = k x s
follow (err e, s) k = (err e, s)

infixl 5 ◌>>=◌
abbrev pub ◌>>=◌ : {S A B : Type 0} → Io S A → (A → Io S B) → Io S B
(m >>= k) s = follow (m s) k

abbrev pub give : {S A : Type 0} → A → Io S A
give x s = (ok x, s)

-- What does not touch the disk.
abbrev pub lift : {S A : Type 0} → Result Error A → Io S A
lift r s = (r, s)

-- An early return of an error.
abbrev pub refuse_if : {S : Type 0} → Bool → Error → Io S (Unit {0})
refuse_if b e s = if b then (err e, s) else (ok tt, s)

-- Why a file was not created.
pub data CreateError : Type 0 where
  already_exists : CreateError
  failed : IoError → CreateError

-- tokio's file system, with a state that the calls change. `metadata` is whether the handle is of a
-- regular file, and its length.
pub record DirectoryIo (File : Type 0) : Type 1 where
  pub FileSystem : Type 0
  pub create_dir_all : FilePath → FileSystem → Result IoError (Unit {0}) × FileSystem
  pub create_new : FilePath → FileSystem → Result CreateError File × FileSystem
  pub open_existing : FilePath → FileSystem → Result IoError File
  pub metadata : File → FileSystem → Result IoError (Bool × ℕ)
  pub set_len : ℕ → File → FileSystem → Result IoError File × FileSystem

module _ (files : FileIo) (dirs : DirectoryIo files.File) where
  abbrev pub resize : ℕ → files.File → Io dirs.FileSystem files.File
  resize len f fs = let (r, after) = dirs.set_len len f fs in (map_err io r, after)

  -- The branch for a file that is there.
  unfoldable pub open_old : FilePath → ℕ → Io dirs.FileSystem files.File
  open_old p len = do
    f ← λ fs. (map_err io (dirs.open_existing p fs), fs)
    (is_file, old_len) ← λ fs. (map_err io (dirs.metadata f fs), fs)
    irregular ← refuse_if (not is_file) invalid_file
    longer ← refuse_if (ltb len old_len) invalid_file
    resize len f

  -- The match on `create_new`.
  unfoldable pub opened_by :
      FilePath
      → ℕ
      → Result CreateError files.File × dirs.FileSystem
      → Result Error files.File × dirs.FileSystem
  unfolding open_old
  opened_by p len (ok f, made) = resize len f made
  opened_by p len (err already_exists, made) = open_old p len made
  opened_by p len (err (failed e), made) = (err (io e), made)

  unfoldable pub open_file : FilePath → ℕ → Io dirs.FileSystem files.File
  unfolding opened_by
  open_file p len fs = opened_by p len (dirs.create_new p fs)

  -- `if let Some(parent)`
  abbrev pub make_dir : Option FilePath → Io dirs.FileSystem (Unit {0})
  make_dir none fs = (ok tt, fs)
  make_dir (some dir) fs = let (r, after) = dirs.create_dir_all dir fs in (map_err io r, after)

  abbrev pub make_parent : FilePath → Io dirs.FileSystem (Unit {0})
  make_parent p = make_dir (parent p)

  -- The loop over the files of the metainfo; `offset` wraps around.
  unfoldable pub open_files : FilePath → ℕ → List Torrent.File → Io dirs.FileSystem (Files files)
  unfolding build_path from_iter parent open_file
  open_files base offset [] = give []
  open_files base offset (f ∷ more) = do
    p ← lift (build_path base (from_iter empty_path f.path))
    made ← make_parent p
    handle ← open_file p f.len
    others ← open_files base ((offset + f.len) % 2 ^ 64) more
    give (record { file = handle; len = f.len; offset = offset } ∷ others)

  unfoldable pub open_mode : FilePath → Mode → Io dirs.FileSystem (Files files)
  unfolding open_files
  open_mode base (single len) = do
    handle ← open_file base len
    give (record { file = handle; len = len; offset = 0 } ∷ [])
  open_mode base (multiple more) = open_files base 0 more

  unfoldable pub create_files : Metainfo → FilePath → Io dirs.FileSystem (Files files)
  unfolding open_mode path_of
  create_files m root = do
    base ← lift (build_path root (path_of m.name))
    made ← make_parent base
    open_mode base m.mode

  -- `DiskStorage::new`: the storage, and the files that its task is started on.
  unfoldable pub new : Metainfo → FilePath → Io dirs.FileSystem (DiskStorage × Files files)
  unfolding create_files
  new m root = do
    opened ← create_files m root
    give (
      record {
        piece_length = m.piece_length;
        piece_count = length m.pieces;
        total_size = Torrent.total_size m;
      },
      opened,
    )
