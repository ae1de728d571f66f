-- ===== src/Disk/Tests.antt =====
-- Two files in memory, and a file system that is a list of paths.
use tortue.Prelude.{
  ℕ, ◌+◌, ◌*◌, Bytes, List, [], ◌∷◌, ◌++◌, true, false, none, ok, err, done, length, take, drop,
  replicate, codes, All, ◌≡◌, ◌↔◌, refl, sym, ap, ◌∙◌, arith, ok-injective, length-take,
  length-append, length-replicate,
}
use tortue.Net.{BlockRange}
use tortue.Torrent.{Metainfo, multiple, total_size}
use tortue.Disk.Files.{
  IoError, FileIo, Files, device, write, read, flush, bytes_read, flushed, worker, read_from_files,
  read_from,
}
use tortue.Disk.Paths.{FilePath, Component, normal, path_traversal}
use tortue.Disk.Storage.{DiskStorage, storage_offset, write_command, read_command}
use tortue.Disk.Create.{DirectoryIo, create_files, new}
use tortue.Disk.Flat.{Works, splice, flat, ideal}
use tortue.Disk.Refinement.{Stands, worker-ideal}
use tortue.Disk.RoundTrip.{written_is_read}
use tortue.Disk.StorageLaws.{IsInside, storage_offset-IsInside}
use tortue.Disk.Opening.{Sizes, new-Stands}
use tortue.Disk.PathsLaws.{IsUnder, Keeps, create_files-keeps}

-- A file is its bytes and the position.
abbrev memory : FileIo
memory = record {
  File = Bytes × ℕ;
  seek = λ o f. ok (f.0, o);
  write_all = λ d f. ok (splice f.1 d f.0, f.1 + length d);
  read_to_end = λ n f. ok (take n (drop f.1 f.0), (f.0, f.1 + n));
  flush = λ f. ok f;
}

abbrev memory-Works : Works memory
memory-Works = record {
  contents = λ f. f.0;
  position = λ f. f.1;
  seek_works = λ o f. ((f.0, o), refl, refl, refl);
  write_all_works = λ d f h. ((splice f.1 d f.0, f.1 + length d), refl, refl);
  read_to_end_works = λ n f. ((f.0, f.1 + n), refl, refl);
  flush_works = λ f. (f, refl, refl);
}

-- Three bytes and five.
abbrev two_files : Files memory
two_files =
    record { file = (1 ∷ 2 ∷ 3 ∷ [], 0); len = 3; offset = 0 }
    ∷ record { file = (4 ∷ 5 ∷ 6 ∷ 7 ∷ 8 ∷ [], 0); len = 5; offset = 3 }
    ∷ []

across : read_from_files memory 2 4 two_files ≡ (
  ok (3 ∷ 4 ∷ 5 ∷ 6 ∷ []),
  record { file = (1 ∷ 2 ∷ 3 ∷ [], 3); len = 3; offset = 0 }
      ∷ record { file = (4 ∷ 5 ∷ 6 ∷ 7 ∷ 8 ∷ [], 3); len = 5; offset = 3 }
      ∷ [],
)
unfolding read_from_files read_from
across = refl

two_files-Stands : Stands memory memory-Works two_files
two_files-Stands = ((refl, refl, (refl, refl, tt)), omega arith)

-- The write ends behind the second file's first byte.
worker-ideal_example :
    (after : Files memory) × (worker memory
        (write 1 (9 ∷ 9 ∷ 9 ∷ []) ∷ read 0 4 false ∷ flush ∷ [])
        two_files
      ≡ done (bytes_read (ok (1 ∷ 9 ∷ 9 ∷ 9 ∷ [])) ∷ flushed (ok tt) ∷ [], after))
    × Stands memory memory-Works after
    × (flat memory memory-Works after ≡ 1 ∷ 9 ∷ 9 ∷ 9 ∷ 5 ∷ 6 ∷ 7 ∷ 8 ∷ [])
unfolding ideal
worker-ideal_example =
    worker-ideal memory memory-Works (write 1 (9 ∷ 9 ∷ 9 ∷ []) ∷ read 0 4 false ∷ flush ∷ [])
      two_files two_files-Stands (omega arith, (omega arith, (tt, tt)))

abbrev storage : DiskStorage
storage = record { piece_length = 4; piece_count = 2; total_size = 8 }

abbrev middle : BlockRange
middle = record { piece_index = 1; piece_offset = 1; len = 2 }

written_is_read_example :
    (after : Files memory) × (worker memory (write 5 (0 ∷ 1 ∷ []) ∷ read 5 2 false ∷ []) two_files
      ≡ done (bytes_read (ok (0 ∷ 1 ∷ [])) ∷ [], after))
written_is_read_example =
    written_is_read memory memory-Works storage middle (0 ∷ 1 ∷ []) (write 5 (0 ∷ 1 ∷ []))
      (read 5 2 false) two_files two_files-Stands refl put get
  where
    put : write_command storage middle (0 ∷ 1 ∷ []) ≡ ok (write 5 (0 ∷ 1 ∷ []))
    put = unfold write_command storage_offset in refl

    get : read_command storage middle false ≡ ok (read 5 2 false)
    get = unfold read_command storage_offset in refl

storage_offset-IsInside_example :
    (storage_offset storage middle ≡ ok 5) ↔ (IsInside storage middle × (5 ≡ 1 * 4 + 1))
storage_offset-IsInside_example =
    storage_offset-IsInside storage middle 5 (omega arith) (omega arith)

-- A file system that knows which files were created.
abbrev created : DirectoryIo memory.File
created = record {
  FileSystem = List FilePath;
  create_dir_all = λ p fs. (ok tt, fs);
  create_new = λ p fs. (ok ([], 0), p ∷ fs);
  open_existing = λ p fs. err device;
  metadata = λ f fs. ok (true, length f.0);
  set_len = λ n f fs. (ok (take n (f.0 ++ replicate n 0), 0), fs);
}

created-Sizes : Sizes memory memory-Works created
created-Sizes n f g fs after h =
    ap (λ x. length x.0)
      (sym (ok-injective {E = IoError} (take n (f.0 ++ replicate n 0), 0) g (ap (λ t. t.0) h)))
    ∙ omega (
      arith,
      length-take n (f.0 ++ replicate n 0),
      length-append f.0 (replicate n 0),
      length-replicate {A = ℕ} n 0,
    )

abbrev album : Metainfo
album = record {
  name = codes "album";
  announce = [];
  comment = none;
  created_by = none;
  created_at = none;
  url_list = none;
  info_bytes = [];
  info_hash = [];
  piece_length = 4;
  pieces = [] ∷ [] ∷ [];
  mode = multiple (
      record { len = 3; path = codes "one" ∷ [] }
      ∷ record { len = 4; path = codes "more" ∷ codes "two" ∷ [] }
      ∷ []);
}

abbrev out : FilePath
out = record { is_absolute = false; components = normal (codes "out") ∷ [] }

abbrev in_album : List Component → FilePath
in_album more = record {
  is_absolute = false;
  components = normal (codes "out") ∷ normal (codes "album") ∷ more;
}

abbrev album_files : Files memory
album_files =
    record { file = (0 ∷ 0 ∷ 0 ∷ [], 0); len = 3; offset = 0 }
    ∷ record { file = (0 ∷ 0 ∷ 0 ∷ 0 ∷ [], 0); len = 4; offset = 3 }
    ∷ []

abbrev album_paths : List FilePath
album_paths =
    in_album (normal (codes "more") ∷ normal (codes "two") ∷ [])
    ∷ in_album (normal (codes "one") ∷ [])
    ∷ []

album_done : create_files memory created album out [] ≡ (ok album_files, album_paths)
unfolding create_files
album_done = refl

abbrev album_storage : DiskStorage
album_storage = record { piece_length = 4; piece_count = 2; total_size = 7 }

album_opened : new memory created album out [] ≡ (ok (album_storage, album_files), album_paths)
unfolding new total_size
album_opened = refl

new-Stands_example :
    Stands memory memory-Works album_files
    × (length (flat memory memory-Works album_files) ≡ album_storage.total_size)
new-Stands_example =
    new-Stands memory memory-Works created created-Sizes album out [] album_paths album_storage
      album_files (omega arith) album_opened

-- All files were created under `out`.
created-Keeps : Keeps memory created (All (IsUnder out)) out
created-Keeps = record {
  directory = λ p dir fs under e was. was;
  creation = λ p fs under was. (under, was);
  resize_new = λ p len fs made f under e was. was;
  resize_old = λ p len old fs f under e m l was. was;
}

create_files-keeps_example : All (IsUnder out) (create_files memory created album out []).1
create_files-keeps_example =
    create_files-keeps memory created (All (IsUnder out)) out created-Keeps album [] tt

-- A name with a step up is refused, and so is a path that starts at the root.
abbrev named : Bytes → Metainfo
named name = record album { name = name }

traversals :
    (create_files memory created (named (codes "a/../../b")) out [] ≡ (err path_traversal, []))
    × (create_files memory created (named (codes "/etc")) out [] ≡ (err path_traversal, []))
unfolding create_files
traversals = (refl, refl)
