-- ===== src/Disk/Opening.antt =====
-- The opened files tile the content of the torrent.
use tortue.Prelude.{
  ok-injective, ℕ, ◌+◌, ◌%◌, ◌^◌, ◌<◌, List, [], ◌∷◌, Result, ok, err, map_err, length, ◌≡◌, refl,
  sym, ap, ◌∙◌, arith, subst, length-append, append-nil, not, ltb,
}
use tortue.Torrent
use tortue.Torrent.{Metainfo, Mode, single, multiple, sum_lengths}
use tortue.Disk.Files.{FileIo, OutputFile, Files, IoError}
use tortue.Disk.Paths.{
  Error, FilePath, io, invalid_file, build_path, path_of, from_iter, empty_path,
}
use tortue.Disk.Storage.{DiskStorage}
use tortue.Disk.Create.{
  Io, follow, give, refuse_if, DirectoryIo, already_exists, failed, open_old, open_file,
  make_parent, open_files, open_mode, create_files, new, CreateError, opened_by,
}
use tortue.Disk.Flat.{Works, flat, IsTiled}
use tortue.Disk.Refinement.{Stands}

-- The size before it wraps around.
abbrev pub size_of : Mode → ℕ
size_of (single len) = len
size_of (multiple list) = sum_lengths list

by_mode :
    (mode : Mode)
    → size_of mode < 2 ^ 64
    → (elim mode as (λ x. ℕ) [ single n ↦ n | multiple list ↦ sum_lengths list % 2 ^ 64 ])
      ≡ size_of mode
by_mode (single len) h = refl
by_mode (multiple list) h = omega arith

total_size_small : (m : Metainfo) → size_of m.mode < 2 ^ 64 → Torrent.total_size m ≡ size_of m.mode
unfolding Torrent.total_size
total_size_small m h = by_mode m.mode h

-- Inversion of a computation that succeeds.
follow-eq-ok :
    {S A B : Type 0} {y : B} {after : S} (x : Result Error A × S) (k : A → Io S B)
    → follow x k ≡ (ok y, after)
    → (a : A) × (s : S) × (x ≡ (ok a, s)) × (k a s ≡ (ok y, after))
follow-eq-ok (ok a, s) k h = (a, s, refl, h)
follow-eq-ok (err e, s) k h = absurd (refused (ap (λ t. t.0) h))
  where
    refused : {C : Type 0} {x : C} → ◌≡◌ {A = Result Error C} (err e) (ok x) → ⊥
    refused g = cc

given : {S A : Type 0} {x y : A} {s t : S} → give x s ≡ (ok y, t) → x ≡ y
given {x = x} {y = y} h = ok-injective {E = Error} x y (ap (λ t. t.0) h)

module _ (files : FileIo) (w : Works files) (dirs : DirectoryIo files.File) where
  -- `set_len` sets the length.
  abbrev pub Sizes : Type 0
  Sizes =
      (n : ℕ) (f g : files.File) (fs after : dirs.FileSystem)
      → dirs.set_len n f fs ≡ (ok g, after)
      → length (w.contents g) ≡ n

  module _ (sizes : Sizes) where
    resized :
        (len : ℕ) (f g : files.File) (fs after : dirs.FileSystem)
        (r : Result IoError files.File × dirs.FileSystem)
        → dirs.set_len len f fs ≡ r
        → ◌≡◌ {A = Result Error files.File × dirs.FileSystem} (map_err io r.0, r.1) (ok g, after)
        → length (w.contents g) ≡ len
    resized len f g fs after (ok x, s) e h =
        sizes len f g fs s
          (e ∙ ap (λ t. (ok t, s)) (ok-injective {E = Error} x g (ap (λ t. t.0) h)))
    resized len f g fs after (err x, s) e h = absurd (cc (ap (λ t. t.0) h))

    open_old-sized :
        (p : FilePath) (len : ℕ) (fs after : dirs.FileSystem) (g : files.File)
        → open_old files dirs p len fs ≡ (ok g, after)
        → length (w.contents g) ≡ len
    unfolding open_old
    open_old-sized p len fs after g h =
        let (f, s₁, e₁, h₁) = follow-eq-ok (map_err io (dirs.open_existing p fs), fs) _ h in
        let (m, s₂, e₂, h₂) = follow-eq-ok (map_err io (dirs.metadata f s₁), s₁) _ h₁ in
        let (u, s₃, e₃, h₃) = follow-eq-ok (refuse_if (not m.0) invalid_file s₂) _ h₂ in
        let (v, s₄, e₄, h₄) = follow-eq-ok (refuse_if (ltb len m.1) invalid_file s₃) _ h₃ in
        resized len f g s₄ after (dirs.set_len len f s₄) refl h₄

    -- The three outcomes of a creation.
    by_creation :
        (p : FilePath) (len : ℕ) (after : dirs.FileSystem) (g : files.File)
        (c : Result CreateError files.File × dirs.FileSystem)
        → opened_by files dirs p len c ≡ (ok g, after)
        → length (w.contents g) ≡ len
    unfolding opened_by
    by_creation p len after g (ok f, made) h =
        resized len f g made after (dirs.set_len len f made) refl h
    by_creation p len after g (err already_exists, made) h = open_old-sized p len made after g h
    by_creation p len after g (err (failed e), made) h = absurd (cc (ap (λ t. t.0) h))

    open_file-sized :
        (p : FilePath) (len : ℕ) (fs after : dirs.FileSystem) (g : files.File)
        → open_file files dirs p len fs ≡ (ok g, after)
        → length (w.contents g) ≡ len
    unfolding open_file
    open_file-sized p len fs after g h = by_creation p len after g (dirs.create_new p fs) h

    open_files-Tiled :
        (base : FilePath) (offset : ℕ) (list : List Torrent.File) (fs after : dirs.FileSystem)
        (opened_files : Files files)
        → offset + sum_lengths list < 2 ^ 64
        → open_files files dirs base offset list fs ≡ (ok opened_files, after)
        → IsTiled files w offset opened_files
          × (length (flat files w opened_files) ≡ sum_lengths list)
    unfolding open_files
    open_files-Tiled base offset [] fs after opened_files fits h =
        subst (λ l. IsTiled files w offset l × (length (flat files w l) ≡ 0)) (given h) (tt, refl)
    open_files-Tiled base offset (f ∷ more) fs after opened_files fits h =
        let (p, s₁, e₁, h₁) =
          follow-eq-ok (build_path base (from_iter empty_path f.path), fs) _ h in
        let (made, s₂, e₂, h₂) = follow-eq-ok (make_parent files dirs p s₁) _ h₁ in
        let (handle, s₃, e₃, h₃) = follow-eq-ok (open_file files dirs p f.len s₂) _ h₂ in
        let (others, s₄, e₄, h₄) =
          follow-eq-ok (open_files files dirs base ((offset + f.len) % 2 ^ 64) more s₃) _ h₃ in
        let size = open_file-sized p f.len s₂ s₃ handle e₃ in
        let unwrapped : (offset + f.len) % 2 ^ 64 ≡ offset + f.len = omega arith in
        let (tiled, total) =
          open_files-Tiled base ((offset + f.len) % 2 ^ 64) more s₃ s₄ others (omega arith) e₄ in
        let g : OutputFile files.File = record { file = handle; len = f.len; offset = offset } in
        let rest : IsTiled files w (offset + f.len) others =
          subst (λ o. IsTiled files w o others) unwrapped tiled in
        subst (λ l. IsTiled files w offset l × (length (flat files w l) ≡ f.len + sum_lengths more))
          (given {x = g ∷ others} h₄)
          (
            (refl, sym size, rest),
            omega (arith, length-append (w.contents handle) (flat files w others), size, total),
          )

    open_mode-Tiled :
        (base : FilePath) (mode : Mode) (fs after : dirs.FileSystem) (opened_files : Files files)
        → size_of mode < 2 ^ 64
        → open_mode files dirs base mode fs ≡ (ok opened_files, after)
        → IsTiled files w 0 opened_files × (length (flat files w opened_files) ≡ size_of mode)
    unfolding open_mode
    open_mode-Tiled base (single len) fs after opened_files fits h =
        let (handle, s₁, e₁, h₁) = follow-eq-ok (open_file files dirs base len fs) _ h in
        let size = open_file-sized base len fs s₁ handle e₁ in
        let g : OutputFile files.File = record { file = handle; len = len; offset = 0 } in
        subst (λ l. IsTiled files w 0 l × (length (flat files w l) ≡ len)) (given {x = g ∷ []} h₁)
          ((refl, sym size, tt), ap length (append-nil (w.contents handle)) ∙ size)
    open_mode-Tiled base (multiple list) fs after opened_files fits h =
        open_files-Tiled base 0 list fs after opened_files (omega (arith, fits)) h

    -- The files that a new storage opens tile the torrent's content: each starts where the one
    -- before ends, and their lengths add up to the storage's size, where this fits 64 bits and
    -- `set_len` sets the length.
    pub new-Stands :
        (m : Metainfo) (root : FilePath) (fs after : dirs.FileSystem) (s : DiskStorage)
        (opened_files : Files files)
        → size_of m.mode < 2 ^ 64
        → new files dirs m root fs ≡ (ok (s, opened_files), after)
        → Stands files w opened_files × (length (flat files w opened_files) ≡ s.total_size)
    unfolding new create_files
    new-Stands m root fs after s opened_files fits h =
        let (opened, s₁, e₁, h₁) = follow-eq-ok (create_files files dirs m root fs) _ h in
        let (base, s₂, e₂, h₂) = follow-eq-ok (build_path root (path_of m.name), fs) _ e₁ in
        let (made, s₃, e₃, h₃) = follow-eq-ok (make_parent files dirs base s₂) _ h₂ in
        let (tiled, total) = open_mode-Tiled base m.mode s₃ s₁ opened fits h₃ in
        let e = given h₁ in
        let size : s.total_size ≡ Torrent.total_size m = ap (λ t. t.0.total_size) (sym e) in
        subst (λ l. Stands files w l × (length (flat files w l) ≡ s.total_size)) (ap (λ t. t.1) e)
          ((tiled, omega (arith, total, fits)), total ∙ sym (size ∙ total_size_small m fits))
