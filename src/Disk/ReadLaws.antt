-- ===== src/Disk/ReadLaws.antt =====
-- Reads across the files are reads of one array.
use tortue.Prelude.{
  ℕ, ◌+◌, ◌-◌, ◌^◌, ◌≤◌, ◌<◌, min, max, Bytes, [], ◌∷◌, ◌++◌, true, false, ok, some, leb, ◌==◌,
  length, take, drop, checked_add, ◌≡◌, refl, sym, ap, ◌∙◌, arith, inl, inr, Bool-cases, leb→le,
  le_of_not_leb, lt→ltb, ==_iff, length-append, length-take, length-drop, append_assoc, append-nil,
  take_eq_of, take_all, take-append, drop-append, drop_all, subst,
}
use tortue.Disk.Files.{FileIo, OutputFile, Files, read_from, read_files}
use tortue.Disk.Flat.{Works, flat, IsTiled}

-- What lies between two positions of an array that begins at `b`.
abbrev pub window : ℕ → ℕ → ℕ → Bytes → Bytes
window b offset stop s = take (stop - max offset b) (drop (offset - b) s)

window-append :
    (b offset stop : ℕ) (s t : Bytes) (len : ℕ)
    → len ≡ length s
    → window b offset stop (s ++ t) ≡ window b offset stop s ++ window (b + len) offset stop t
window-append b offset stop s t len h =
    ap (take (stop - max offset b))
      (drop-append (offset - b) (offset - (b + len)) s t (omega arith))
    ∙ take-append (stop - max offset b) (stop - max offset (b + len)) (drop (offset - b) s) _
        (omega (arith, length-drop (offset - b) s))

window-nil : (b offset stop : ℕ) → window b offset stop [] ≡ []
window-nil b offset stop =
    let e : drop {A = ℕ} (offset - b) [] ≡ [] = drop_all {A = ℕ} (offset - b) [] (omega arith) in
    ap (take (stop - max offset b)) e ∙ take_all {A = ℕ} (stop - max offset b) [] (omega arith)

-- The part of a file that a round reads.
window_of :
    (b offset stop : ℕ) (s : Bytes) (len : ℕ)
    → len ≡ length s
    → take (min stop (b + len) - max offset b) (drop (max offset b - b) s) ≡ window b offset stop s
window_of b offset stop s len h =
    let e : max offset b - b ≡ offset - b = omega arith in
    ap (λ k. take (min stop (b + len) - max offset b) (drop k s)) e
    ∙ take_eq_of (min stop (b + len) - max offset b) (stop - max offset b) (drop (offset - b) s)
        (elim (Bool-cases (leb stop (b + len))) [
          | inl p ↦ let q = leb→le _ _ p in inl (omega arith)
          | inr p ↦
              let q = le_of_not_leb _ _ p in
              inr (
                omega (arith, length-drop (offset - b) s),
                omega (arith, length-drop (offset - b) s),
              )
        ])

window_skipped :
    (b offset stop : ℕ) (s : Bytes) (len : ℕ)
    → len ≡ length s
    → min stop (b + len) ≤ max offset b
    → window b offset stop s ≡ []
window_skipped b offset stop s len h p =
    let none_left : min stop (b + len) - max offset b ≡ 0 = omega arith in
    sym (window_of b offset stop s len h) ∙ ap (λ n. take n (drop (max offset b - b) s)) none_left

module _ (io : FileIo) (w : Works io) where
  read_from_lem :
      (o n : ℕ) (f : io.File)
      → (g : io.File) × (read_from io o n f ≡ ok (take n (drop o (w.contents f)), g))
        × (w.contents g ≡ w.contents f)
  unfolding read_from
  read_from_lem o n f =
      let (g, sought, same, at) = w.seek_works o f in
      let (r, got, after) = w.read_to_end_works n g in
      (r, rw sought (got ∙ λ i. ok (take n (drop (at i) (same i)), r)), after ∙ same)

  read_files_skip :
      (offset stop e : ℕ) (buffer r : Bytes) (f : OutputFile io.File) (files gs : Files io)
      → checked_add f.offset f.len ≡ some e
      → leb (min stop e) (max offset f.offset) ≡ true
      → read_files io offset stop buffer files ≡ (ok r, gs)
      → read_files io offset stop buffer (f ∷ files) ≡ (ok r, f ∷ gs)
  unfolding read_files
  read_files_skip offset stop e buffer r f files gs p q h =
      rw (p, read_files) (rw q (λ i. ((h i).0, f ∷ (h i).1)))

  read_files_got :
      (offset stop e : ℕ) (buffer got r : Bytes) (f : OutputFile io.File) (g : io.File)
      (files gs : Files io)
      → checked_add f.offset f.len ≡ some e
      → leb (min stop e) (max offset f.offset) ≡ false
      → read_from io (max offset f.offset - f.offset) (min stop e - max offset f.offset) f.file
        ≡ ok (got, g)
      → (length got == (min stop e - max offset f.offset)) ≡ true
      → read_files io offset stop (buffer ++ got) files ≡ (ok r, gs)
      → read_files io offset stop buffer (f ∷ files) ≡ (ok r, record f { file = g } ∷ gs)
  unfolding read_files
  read_files_got offset stop e buffer got r f g files gs p q read all h =
      rw (p, read_files) (rw (q, read) (rw all (λ i. ((h i).0, record f { file = g } ∷ (h i).1))))

  abbrev pub ReadsAll : ℕ → ℕ → ℕ → Bytes → Files io → Type 0
  ReadsAll b offset stop buffer files =
      (after : Files io) × (read_files io offset stop buffer files
        ≡ (ok (buffer ++ window b offset stop (flat io w files)), after))
      × IsTiled io w b after
      × (flat io w after ≡ flat io w files)

  pub read_all :
      (b offset stop : ℕ) (buffer : Bytes) (files : Files io)
      → IsTiled io w b files
      → b + length (flat io w files) < 2 ^ 64
      → ReadsAll b offset stop buffer files
  unfolding read_files
  read_all b offset stop buffer [] tiled fits = (
    [],
    ap (λ t. (ok t, []))
        (sym (ap (λ t. buffer ++ t) (window-nil b offset stop) ∙ append-nil buffer)),
    tt,
    refl,
  )
  read_all b offset stop buffer (f ∷ files) (at, size, more) fits =
      elim (Bool-cases (leb (min stop (f.offset + f.len)) (max offset f.offset))) [
        | inl skip ↦
            let (gs, rest, tiled, same) =
              read_all (b + f.len) offset stop buffer files more below in
            (
              f ∷ gs,
              read_files_skip offset stop (f.offset + f.len) buffer _ f files gs in_range skip rest
                  ∙ ap (λ t. (ok (buffer ++ t), f ∷ gs))
                      (sym (
                        joined
                        ∙ ap (λ t. t ++ window (b + f.len) offset stop (flat io w files))
                            (window_skipped b offset stop content f.len size (
                              subst (λ o. min stop (o + f.len) ≤ max offset o) at
                                (leb→le _ _ skip))))),
              (at, size, tiled),
              ap (λ t. w.contents f.file ++ t) same,
            )
        | inr go ↦
            let (g, read, kept) =
              read_from_lem (max offset f.offset - f.offset)
                (min stop (f.offset + f.len) - max offset f.offset) f.file in
            let got : Bytes =
              take (min stop (f.offset + f.len) - max offset f.offset)
                (drop (max offset f.offset - f.offset) content) in
            let (gs, rest, tiled, same) =
              read_all (b + f.len) offset stop (buffer ++ got) files more below in
            (
              record f { file = g } ∷ gs,
              read_files_got offset stop (f.offset + f.len) buffer got _ f g files gs in_range go
                    read (whole go) rest
                  ∙ ap (λ t. (ok t, record f { file = g } ∷ gs))
                      (append_assoc buffer got _
                        ∙ ap (λ t. buffer ++ t)
                            (ap (λ t. t ++ window (b + f.len) offset stop (flat io w files)) got_lem
                              ∙ sym joined)),
              (at, size ∙ sym (ap length kept), tiled),
              λ i. kept i ++ same i,
            )
      ]
    where
      content : Bytes
      content = w.contents f.file

      got_lem :
          take
            (min stop (f.offset + f.len) - max offset f.offset)
            (drop (max offset f.offset - f.offset) content)
          ≡ window b offset stop content
      got_lem =
          ap (λ o. take (min stop (o + f.len) - max offset o) (drop (max offset o - o) content)) at
          ∙ window_of b offset stop content f.len size

      whole :
          leb (min stop (f.offset + f.len)) (max offset f.offset) ≡ false
          → (length (
                take
                  (min stop (f.offset + f.len) - max offset f.offset)
                  (drop (max offset f.offset - f.offset) content))
              == (min stop (f.offset + f.len) - max offset f.offset))
            ≡ true
      whole go =
          let p = le_of_not_leb _ _ go in
          (==_iff _ _).1 (
            omega (
              arith,
              length-take (min stop (f.offset + f.len) - max offset f.offset)
                  (drop (max offset f.offset - f.offset) content),
              length-drop (max offset f.offset - f.offset) content,
            ))

      joined :
          window b offset stop (content ++ flat io w files)
          ≡ window b offset stop content ++ window (b + f.len) offset stop (flat io w files)
      joined = window-append b offset stop content (flat io w files) f.len size

      below : b + f.len + length (flat io w files) < 2 ^ 64
      below = omega (arith, length-append (w.contents f.file) (flat io w files))

      in_range : checked_add f.offset f.len ≡ some (f.offset + f.len)
      in_range = rw (
          lt→ltb (f.offset + f.len) (2 ^ 64)
            (omega (arith, length-append (w.contents f.file) (flat io w files))))
