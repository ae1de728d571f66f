-- ===== src/Disk/WriteLaws.antt =====
-- Writes across the files are writes to one array.
use tortue.Prelude.{
  ℕ, ◌+◌, ◌-◌, ◌%◌, ◌^◌, ◌≤◌, ◌<◌, min, max, Bytes, [], ◌∷◌, ◌++◌, Bool, true, false, ◌||◌, ok,
  done, some, leb, length, take, drop, slice, ◌≡◌, refl, sym, ap, ◌∙◌, arith, ◌⊎◌, inl, inr,
  Bool-cases, leb→le, le_of_not_leb, slice_in_range, take_all, drop-drop, length-append,
  length-take, length-drop, take_eq_of, drop_all, subst,
}
use tortue.Disk.Files.{FileIo, OutputFile, Files, write_file, write_to_files, write_at}
use tortue.Disk.Flat.{
  Works, splice, flat, IsTiled, splice-nil, splice_empty, splice-append, length-splice,
}

-- A write to the array is one to its first file and one to the rest.
join_parts :
    (b offset : ℕ) (d s t : Bytes) (len : ℕ)
    → len ≡ length s
    → splice (offset - b) (drop (b - offset) d) (s ++ t)
      ≡ splice (offset - b) (take (len - (offset - b)) (drop (b - offset) d)) s
        ++ splice (offset - (b + len)) (drop (b + len - offset) d) t
join_parts b offset d s t len h =
    splice-append (offset - b) (len - (offset - b)) (offset - (b + len)) (drop (b - offset) d) s t
      (omega arith) (omega arith)
    ∙ ap
        (λ e.
          splice (offset - b) (take (len - (offset - b)) (drop (b - offset) d)) s
          ++ splice (offset - (b + len)) e t)
        (drop-drop (b - offset) (len - (offset - b)) (b + len - offset) d (omega arith))

module _ (io : FileIo) (w : Works io) where
  write_at_lem :
      (o : ℕ) (d : Bytes) (f : io.File)
      → o + length d ≤ length (w.contents f)
      → (g : io.File) × (write_at io o d f ≡ ok g) × (w.contents g ≡ splice o d (w.contents f))
  unfolding write_at
  write_at_lem o d f h =
      let (g, sought, same, at) = w.seek_works o f in
      let (r, written, after) = w.write_all_works d g (rw (at, same) h) in
      (r, rw sought written, after ∙ λ i. splice (at i) d (same i))

  -- What a round writes to one file: the part of the data that falls into it.
  abbrev part : ℕ → ℕ → Bytes → ℕ → Bytes
  part b offset d size = take (size - (offset - b)) (drop (b - offset) d)

  abbrev skipped : ℕ → Bytes → OutputFile io.File → Bool
  skipped offset d f = leb (f.offset + f.len) offset || leb (offset + length d) f.offset

  skipped_lem :
      (offset : ℕ) (d : Bytes) (f : OutputFile io.File)
      → skipped offset d f ≡ true
      → (f.offset + f.len ≤ offset) ⊎ (offset + length d ≤ f.offset)
  skipped_lem offset d f h = ground arith

  overlaps_lem :
      (offset : ℕ) (d : Bytes) (f : OutputFile io.File)
      → skipped offset d f ≡ false
      → (offset < f.offset + f.len) × (f.offset < offset + length d)
  overlaps_lem offset d f h = ground arith

  part_skipped :
      (b offset : ℕ) (d : Bytes) (f : OutputFile io.File)
      → f.offset ≡ b
      → (f.offset + f.len ≤ offset) ⊎ (offset + length d ≤ f.offset)
      → part b offset d f.len ≡ []
  part_skipped b offset d f at (inl h) =
      let e : f.len - (offset - b) ≡ 0 = omega arith in ap (λ n. take n (drop (b - offset) d)) e
  part_skipped b offset d f at (inr h) =
      ap (take (f.len - (offset - b))) (drop_all (b - offset) d (omega arith))
      ∙ take_all (f.len - (offset - b)) [] (omega arith)

  reaches :
      (b offset : ℕ) (d : Bytes) (f : OutputFile io.File)
      → f.offset ≡ b
      → offset < f.offset + f.len
      → f.offset < offset + length d
      → (min (offset + length d) (f.offset + f.len) - max offset f.offset ≡ f.len - (offset - b))
        ⊎ ((length (drop (b - offset) d)
              ≤ min (offset + length d) (f.offset + f.len) - max offset f.offset)
            × (length (drop (b - offset) d) ≤ f.len - (offset - b)))
  reaches b offset d f at p q = elim (Bool-cases (leb (f.offset + f.len) (offset + length d))) [
    | inl h ↦ let k = leb→le _ _ h in inl (omega arith)
    | inr h ↦
        let k = le_of_not_leb _ _ h in
        inr (omega (arith, length-drop (b - offset) d), omega (arith, length-drop (b - offset) d))
  ]

  write_file_lem :
      (b offset : ℕ) (d : Bytes) (f : OutputFile io.File)
      → f.offset ≡ b
      → f.len ≡ length (w.contents f.file)
      → b + f.len < 2 ^ 64
      → offset + length d < 2 ^ 64
      → (g : OutputFile io.File) × (write_file io offset d f ≡ done (ok g))
        × (g.offset ≡ b)
        × (g.len ≡ f.len)
        × (w.contents g.file ≡ splice (offset - b) (part b offset d f.len) (w.contents f.file))
  unfolding write_file
  write_file_lem b offset d f at size fits small = elim (Bool-cases (skipped offset d f)) [
    | inl skip ↦ (
      f,
      rw (write_end, file_end, skip) refl,
      at,
      refl,
      sym (
          ap (λ e. splice (offset - b) e (w.contents f.file)) (nothing skip)
          ∙ splice-nil (offset - b) _),
    )
    | inr go ↦
        let (g, written, after) =
          write_at_lem (start - f.offset) (take (stop - start) (drop (start - offset) d)) f.file
            (room go) in
        (
          record f { file = g },
          rw (write_end, file_end, go) (rw (sliced go) (rw written refl)),
          at,
          refl,
          after ∙ λ i. splice (from i) (clipped go i) (w.contents f.file),
        )
  ]
    where
      start : ℕ
      start = max offset f.offset

      stop : ℕ
      stop = min (offset + length d) (f.offset + f.len)

      write_end : (offset + length d) % 2 ^ 64 ≡ offset + length d
      write_end = omega arith

      file_end : (f.offset + f.len) % 2 ^ 64 ≡ f.offset + f.len
      file_end = omega (arith, at)

      nothing : skipped offset d f ≡ true → part b offset d f.len ≡ []
      nothing skip = part_skipped b offset d f at (skipped_lem offset d f skip)

      room :
          skipped offset d f ≡ false
          → start - f.offset + length (take (stop - start) (drop (start - offset) d))
            ≤ length (w.contents f.file)
      room go =
          let (p, q) = overlaps_lem offset d f go in
          omega (
            arith,
            length-take (stop - start) (drop (start - offset) d),
            length-drop (start - offset) d,
          )

      sliced :
          skipped offset d f ≡ false
          → slice (start - offset) ((stop + 2 ^ 64 - start) % 2 ^ 64) d
            ≡ some (take (stop - start) (drop (start - offset) d))
      sliced go =
          let (p, q) = overlaps_lem offset d f go in
          slice_in_range (start - offset) _ (stop - start) d (omega arith) (omega arith)

      from : start - f.offset ≡ offset - b
      from = omega arith

      clipped :
          skipped offset d f ≡ false
          → take (stop - start) (drop (start - offset) d) ≡ part b offset d f.len
      clipped go =
          let (p, q) = overlaps_lem offset d f go in
          let e : start - offset ≡ b - offset = omega arith in
          ap (λ k. take (stop - start) (drop k d)) e
          ∙ take_eq_of (stop - start) (f.len - (offset - b)) (drop (b - offset) d)
              (reaches b offset d f at p q)

  write_to_files_cons :
      (offset : ℕ) (d : Bytes) (f g : OutputFile io.File) (files gs : Files io)
      → write_file io offset d f ≡ done (ok g)
      → write_to_files io offset d files ≡ done (ok tt, gs)
      → write_to_files io offset d (f ∷ files) ≡ done (ok tt, g ∷ gs)
  unfolding write_to_files
  write_to_files_cons offset d f g files gs p q = rw (p, write_to_files) (rw q refl)

  abbrev pub Wrote : ℕ → ℕ → Bytes → Files io → Type 0
  Wrote b offset d files =
      (after : Files io) × (write_to_files io offset d files ≡ done (ok tt, after))
      × IsTiled io w b after
      × (flat io w after ≡ splice (offset - b) (drop (b - offset) d) (flat io w files))

  pub write_from :
      (b offset : ℕ) (d : Bytes) (files : Files io)
      → IsTiled io w b files
      → b + length (flat io w files) < 2 ^ 64
      → offset + length d < 2 ^ 64
      → Wrote b offset d files
  unfolding write_to_files
  write_from b offset d [] tiled fits small = ([], refl, tt, sym (splice_empty (offset - b) _))
  write_from b offset d (f ∷ files) (at, size, more) fits small =
      let content = w.contents f.file in
      let total = length-append content (flat io w files) in
      let (g, written, there, len, after) =
        write_file_lem b offset d f at size (omega (arith, total)) small in
      let (gs, rest, tiled, same) =
        write_from (b + f.len) offset d files more (omega (arith, total)) small in
      let kept : f.len ≡ length (w.contents g.file) =
        size ∙ sym (ap length after ∙ length-splice (offset - b) _ content) in
      (
        g ∷ gs,
        write_to_files_cons offset d f g files gs written rest,
        (there, len ∙ kept, subst (λ o. IsTiled io w (b + o) gs) (sym len) tiled),
        (λ i. after i ++ same i) ∙ sym (join_parts b offset d content (flat io w files) f.len size),
      )
