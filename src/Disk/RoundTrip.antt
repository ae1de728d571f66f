-- ===== src/Disk/RoundTrip.antt =====
-- What was written to a block is read from it.
use tortue.Prelude.{
  ℕ, Bytes, [], ◌∷◌, Bool, false, ok, done, >>=-eq-ok, ◌==◌, length, take, drop, ◌≡◌, sym, ap, ◌∙◌,
  arith, ==_iff, Bool-cases, inl, inr,
}
use tortue.Net.{BlockRange}
use tortue.Disk.Files.{FileIo, Files, DiskCommand, write, read, bytes_read, worker}
use tortue.Disk.Storage.{DiskStorage, storage_offset, write_command, read_command}
use tortue.Disk.StorageLaws.{IsInside-of_offset}
use tortue.Disk.Flat.{Works, splice, flat, take-drop-splice, ideal}
use tortue.Disk.Refinement.{Stands, worker-ideal}

write_command_lem :
    (s : DiskStorage) (r : BlockRange) (d : Bytes) (c : DiskCommand)
    → write_command s r d ≡ ok c
    → (n : ℕ) × (storage_offset s r ≡ ok n) × (c ≡ write n d) × (length d ≡ r.len)
unfolding write_command
write_command_lem s r d c h = elim (Bool-cases (length d == r.len)) [
  | inl e ↦
      let (n, at, same) = >>=-eq-ok (storage_offset s r) (λ m. ok (write m d)) (rw e at h) in
      (n, at, cc, (==_iff _ _).0 e)
  | inr e ↦ absurd (cc (rw e at h))
]

read_command_lem :
    (s : DiskStorage) (r : BlockRange) (n : ℕ) (closed : Bool) (c : DiskCommand)
    → storage_offset s r ≡ ok n
    → read_command s r closed ≡ ok c
    → c ≡ read n r.len closed
unfolding read_command
read_command_lem s r n closed c at h = cc (rw at at h)

module _ (io : FileIo) (w : Works io) where
  -- Over files that tile a content of the storage's size and work, what `write` puts into a block,
  -- `read` of the block gives back, through the commands that the task receives.
  pub written_is_read :
      (s : DiskStorage) (r : BlockRange) (d : Bytes) (put get : DiskCommand) (files : Files io)
      → Stands io w files
      → s.total_size ≡ length (flat io w files)
      → write_command s r d ≡ ok put
      → read_command s r false ≡ ok get
      → (after : Files io) × (worker io (put ∷ get ∷ []) files
          ≡ done (bytes_read (ok d) ∷ [], after))
  unfolding ideal
  written_is_read s r d put get files stands total puts gets =
      let (n, at, put_lem, size) = write_command_lem s r d put puts in
      let get_lem : get ≡ read n r.len false = read_command_lem s r n false get at gets in
      let (v, place) = IsInside-of_offset s r n at in
      let small = v.in_content in
      let (after, ran, there, same) =
        worker-ideal io w (write n d ∷ read n r.len false ∷ []) files stands
          (omega (arith, stands.1), (omega (arith, stands.1), tt)) in
      (
        after,
        (λ i. worker io (put_lem i ∷ get_lem i ∷ []) files)
            ∙ ran
            ∙ ap (λ got. done (bytes_read (ok got) ∷ [], after))
                (ap (λ k. take k (drop n (splice n d (flat io w files)))) (sym size)
                  ∙ take-drop-splice n d (flat io w files) (omega arith)),
      )
