-- ===== src/Disk/Refinement.antt =====
-- The task over the files does what its commands do to one array of bytes.
use tortue.Prelude.{
  ℕ, ◌+◌, ◌-◌, ◌^◌, ◌<◌, max, Bytes, List, [], ◌∷◌, ◌++◌, true, false, ok, done, and_then, length,
  take, drop, ◌≡◌, refl, sym, ap, ◌∙◌, arith, checked_add_in_range, subst,
}
use tortue.Disk.Files.{
  FileIo, Files, DiskCommand, write, read, flush, Reply, bytes_read, flushed, write_to_files,
  read_files, read_from_files, flush_files, worker,
}
use tortue.Disk.Flat.{Works, splice, flat, IsTiled, ideal, length-splice}
use tortue.Disk.WriteLaws.{write_from}
use tortue.Disk.ReadLaws.{read_all}

-- A command's range ends below 2^64.
abbrev pub InRange : DiskCommand → Type 0
InRange (write offset d) = offset + length d < 2 ^ 64
InRange (read offset len closed) = offset + len < 2 ^ 64
InRange flush = Unit

abbrev pub AllInRange : List DiskCommand → Type 0
AllInRange [] = Unit
AllInRange (c ∷ commands) = InRange c × AllInRange commands

module _ (io : FileIo) (w : Works io) where
  -- The files stand for an array that 64 bits can address.
  abbrev pub Stands : Files io → Type 0
  Stands files = IsTiled io w 0 files × (length (flat io w files) < 2 ^ 64)

  pub write_to_files-flat :
      (offset : ℕ) (d : Bytes) (files : Files io)
      → Stands files
      → offset + length d < 2 ^ 64
      → (after : Files io) × (write_to_files io offset d files ≡ done (ok tt, after))
        × Stands after
        × (flat io w after ≡ splice offset d (flat io w files))
  write_to_files-flat offset d files (tiled, fits) h =
      let (after, wrote, there, same) = write_from io w 0 offset d files tiled (omega arith) h in
      let from_zero : offset - 0 ≡ offset = omega arith in
      let none_before : 0 - offset ≡ 0 = omega arith in
      let here : flat io w after ≡ splice offset d (flat io w files) =
        same ∙ λ i. splice (from_zero i) (drop (none_before i) d) (flat io w files) in
      (
        after,
        wrote,
        (there, subst (λ n. n < 2 ^ 64) (sym (ap length here ∙ length-splice offset d _)) fits),
        here,
      )

  read_from_files_lem :
      (offset len : ℕ) (files : Files io)
      → offset + len < 2 ^ 64
      → read_from_files io offset len files ≡ read_files io offset (offset + len) [] files
  unfolding read_from_files
  read_from_files_lem offset len files h =
      rw (checked_add_in_range offset len h, read_from_files) refl

  pub read_from_files-flat :
      (offset len : ℕ) (files : Files io)
      → Stands files
      → offset + len < 2 ^ 64
      → (after : Files io) × (read_from_files io offset len files
          ≡ (ok (take len (drop offset (flat io w files))), after))
        × Stands after
        × (flat io w after ≡ flat io w files)
  read_from_files-flat offset len files (tiled, fits) h =
      let (after, got, there, same) =
        read_all io w 0 offset (offset + len) [] files tiled (omega arith) in
      let from_zero : offset - 0 ≡ offset = omega arith in
      let room : offset + len - max offset 0 ≡ len = omega arith in
      (
        after,
        read_from_files_lem offset len files h ∙ got ∙ λ i.
            (ok (take (room i) (drop (from_zero i) (flat io w files))), after),
        (there, subst (λ n. n < 2 ^ 64) (sym (ap length same)) fits),
        same,
      )

  flush_from :
      (b : ℕ) (files : Files io)
      → IsTiled io w b files
      → (after : Files io) × (flush_files io files ≡ (ok tt, after))
        × IsTiled io w b after
        × (flat io w after ≡ flat io w files)
  unfolding flush_files
  flush_from b [] tiled = ([], refl, tt, refl)
  flush_from b (f ∷ files) (at, size, more) =
      let (g, flushed_f, kept) = w.flush_works f.file in
      let (gs, rest, tiled, same) = flush_from (b + f.len) files more in
      (
        record f { file = g } ∷ gs,
        rw (flushed_f, flush_files) (λ i. ((rest i).0, record f { file = g } ∷ (rest i).1)),
        (at, size ∙ sym (ap length kept), tiled),
        λ i. kept i ++ same i,
      )

  abbrev pub Refines : List DiskCommand → Files io → Type 0
  Refines commands files =
      (after : Files io) × (worker io commands files
        ≡ done ((ideal commands (flat io w files)).0, after))
      × Stands after
      × (flat io w after ≡ (ideal commands (flat io w files)).1)

  worker_write :
      (offset : ℕ) (d : Bytes) (commands : List DiskCommand) (files after : Files io)
      → write_to_files io offset d files ≡ done (ok tt, after)
      → worker io (write offset d ∷ commands) files ≡ worker io commands after
  unfolding worker
  worker_write offset d commands files after h = rw (h, worker) refl

  worker_read :
      (offset len : ℕ) (got : Bytes) (replies : List Reply) (commands : List DiskCommand)
      (files middle after : Files io)
      → read_from_files io offset len files ≡ (ok got, middle)
      → worker io commands middle ≡ done (replies, after)
      → worker io (read offset len false ∷ commands) files
        ≡ done (bytes_read (ok got) ∷ replies, after)
  unfolding worker
  worker_read offset len got replies commands files middle after h k = rw (h, worker) (rw k refl)

  worker_flush :
      (replies : List Reply) (commands : List DiskCommand) (files middle after : Files io)
      → flush_files io files ≡ (ok tt, middle)
      → worker io commands middle ≡ done (replies, after)
      → worker io (flush ∷ commands) files ≡ done (flushed (ok tt) ∷ replies, after)
  unfolding worker
  worker_flush replies commands files middle after h k =
      rw (ap (λ x. x.0) h, worker)
        (ap (λ m. and_then (worker io commands m) (λ y. done (flushed (ok tt) ∷ y.0, y.1)))
            (ap (λ x. x.1) h)
          ∙ ap (λ r. and_then r (λ y. done (flushed (ok tt) ∷ y.0, y.1))) k)

  -- Over files that tile the content and work, the task of the storage answers commands within 64
  -- bits as one array of bytes would: the same replies in the same order, and files that stand for
  -- the array after the writes.
  pub worker-ideal :
      (commands : List DiskCommand) (files : Files io)
      → Stands files
      → AllInRange commands
      → Refines commands files
  unfolding worker ideal
  worker-ideal [] files stands h = (files, refl, stands, refl)
  worker-ideal (write offset d ∷ commands) files stands (h, more) =
      let (middle, wrote, there, same) = write_to_files-flat offset d files stands h in
      let (after, ran, end, final) = worker-ideal commands middle there more in
      (
        after,
        worker_write offset d commands files middle wrote
            ∙ ran
            ∙ ap (λ s. done ((ideal commands s).0, after)) same,
        end,
        final ∙ ap (λ s. (ideal commands s).1) same,
      )
  worker-ideal (read offset len true ∷ commands) files stands (h, more) =
      worker-ideal commands files stands more
  worker-ideal (read offset len false ∷ commands) files stands (h, more) =
      let (middle, got, there, same) = read_from_files-flat offset len files stands h in
      let (after, ran, end, final) = worker-ideal commands middle there more in
      (
        after,
        worker_read offset len _ _ commands files middle after got
            (ran ∙ ap (λ s. done ((ideal commands s).0, after)) same),
        end,
        final ∙ ap (λ s. (ideal commands s).1) same,
      )
  worker-ideal (flush ∷ commands) files (tiled, fits) (h, more) =
      let (middle, done_flush, there, same) = flush_from 0 files tiled in
      let (after, ran, end, final) =
        worker-ideal commands middle (there, subst (λ n. n < 2 ^ 64) (sym (ap length same)) fits)
          more in
      (
        after,
        worker_flush _ commands files middle after done_flush
            (ran ∙ ap (λ s. done ((ideal commands s).0, after)) same),
        end,
        final ∙ ap (λ s. (ideal commands s).1) same,
      )
