-- ===== src/Disk/Flat.antt =====
-- The torrent's content as one array of bytes: what the files of adapters/disk_storage.rs stand for.
use tortue.Prelude.{
  ℕ, zero, suc, ◌+◌, ◌-◌, ◌≤◌, Bytes, List, [], ◌∷◌, ◌++◌, true, false, ok, length, take, drop, ◌≡◌,
  refl, ap, arith,
}
use tortue.Disk.Files.{FileIo, Files, DiskCommand, write, read, flush, Reply, bytes_read, flushed}

-- Bytes written over the first ones, and over those from an offset on. Nothing is written past the end.
abbrev pub overwrite : Bytes → Bytes → Bytes
overwrite [] s = s
overwrite (b ∷ d) [] = []
overwrite (b ∷ d) (x ∷ s) = b ∷ overwrite d s

abbrev pub splice : ℕ → Bytes → Bytes → Bytes
splice zero d s = overwrite d s
splice (suc o) d [] = []
splice (suc o) d (x ∷ s) = x ∷ splice o d s

-- What tokio documents of a file that works: a call succeeds, a seek moves the position alone, a
-- write within the file replaces the bytes at the position, a read gives those from there on.
pub record Works (io : FileIo) : Type 0 where
  pub contents : io.File → Bytes
  pub position : io.File → ℕ
  pub seek_works :
      (o : ℕ) (f : io.File)
      → (g : io.File) × (io.seek o f ≡ ok g) × (contents g ≡ contents f) × (position g ≡ o)
  pub write_all_works :
      (d : Bytes) (f : io.File)
      → position f + length d ≤ length (contents f)
      → (g : io.File) × (io.write_all d f ≡ ok g)
        × (contents g ≡ splice (position f) d (contents f))
  pub read_to_end_works :
      (n : ℕ) (f : io.File)
      → (g : io.File) × (io.read_to_end n f ≡ ok (take n (drop (position f) (contents f)), g))
        × (contents g ≡ contents f)
  pub flush_works : (f : io.File) → (g : io.File) × (io.flush f ≡ ok g) × (contents g ≡ contents f)

module _ (io : FileIo) (w : Works io) where
  abbrev pub flat : Files io → Bytes
  flat [] = []
  flat (f ∷ files) = w.contents f.file ++ flat files

  -- Each file starts where the one before it ends, and has the length that is noted for it.
  abbrev pub IsTiled : ℕ → Files io → Type 0
  IsTiled o [] = Unit
  IsTiled o (f ∷ files) =
      (f.offset ≡ o) × (f.len ≡ length (w.contents f.file)) × IsTiled (o + f.len) files

-- What the task is for: the commands on one array.
unfoldable pub ideal : List DiskCommand → Bytes → List Reply × Bytes
ideal [] s = ([], s)
ideal (write offset d ∷ commands) s = ideal commands (splice offset d s)
ideal (read offset len true ∷ commands) s = ideal commands s
ideal (read offset len false ∷ commands) s =
    let rest = ideal commands s in (bytes_read (ok (take len (drop offset s))) ∷ rest.0, rest.1)
ideal (flush ∷ commands) s = let rest = ideal commands s in (flushed (ok tt) ∷ rest.0, rest.1)

overwrite-append :
    (e s t : Bytes)
    → overwrite e (s ++ t) ≡ overwrite (take (length s) e) s ++ overwrite (drop (length s) e) t
overwrite-append [] [] t = refl
overwrite-append [] (x ∷ s) t = refl
overwrite-append (b ∷ e) [] t = refl
overwrite-append (b ∷ e) (x ∷ s) t = ap (λ r. b ∷ r) (overwrite-append e s t)

pub splice-nil : (k : ℕ) (s : Bytes) → splice k [] s ≡ s
splice-nil zero s = refl
splice-nil (suc k) [] = refl
splice-nil (suc k) (x ∷ s) = ap (λ r. x ∷ r) (splice-nil k s)

pub splice_empty : (k : ℕ) (d : Bytes) → splice k d [] ≡ []
splice_empty zero [] = refl
splice_empty zero (b ∷ d) = refl
splice_empty (suc k) d = refl

-- A write to two arrays in a row, `m` the room in the first, `o` the offset in the second.
pub splice-append :
    (k m o : ℕ) (e s t : Bytes)
    → m ≡ length s - k
    → o ≡ k - length s
    → splice k e (s ++ t) ≡ splice k (take m e) s ++ splice o (drop m e) t
splice-append zero m zero e s t h g =
    let h' : m ≡ length s = omega (arith, h) in rw h' (overwrite-append e s t)
splice-append zero m (suc o) e s t h g = absurd (omega (arith, g))
splice-append (suc k) zero o e [] t h g = let g' : o ≡ suc k = omega (arith, g) in rw g' refl
splice-append (suc k) (suc m) o e [] t h g = absurd (omega (arith, h))
splice-append (suc k) m o e (x ∷ s) t h g =
    ap (λ r. x ∷ r) (splice-append k m o e s t (omega (arith, h)) (omega (arith, g)))

pub length-overwrite : (d s : Bytes) → length (overwrite d s) ≡ length s
length-overwrite [] s = refl
length-overwrite (b ∷ d) [] = refl
length-overwrite (b ∷ d) (x ∷ s) = ap suc (length-overwrite d s)

pub length-splice : (k : ℕ) (d s : Bytes) → length (splice k d s) ≡ length s
length-splice zero d s = length-overwrite d s
length-splice (suc k) d [] = refl
length-splice (suc k) d (x ∷ s) = ap suc (length-splice k d s)

take-overwrite : (d s : Bytes) → length d ≤ length s → take (length d) (overwrite d s) ≡ d
take-overwrite [] s h = refl
take-overwrite (b ∷ d) [] h = absurd (omega arith)
take-overwrite (b ∷ d) (x ∷ s) h = ap (λ r. b ∷ r) (take-overwrite d s (omega arith))

-- What was written is there,
pub take-drop-splice :
    (k : ℕ) (d s : Bytes) → k + length d ≤ length s → take (length d) (drop k (splice k d s)) ≡ d
take-drop-splice zero d s h = take-overwrite d s (omega arith)
take-drop-splice (suc k) d [] h = absurd (omega arith)
take-drop-splice (suc k) d (x ∷ s) h = take-drop-splice k d s (omega arith)
