-- ===== src/Disk/PathsLaws.antt =====
-- Nothing is created outside of the directory that the user gave.
use tortue.Prelude.{
  ℕ, ◌+◌, ◌%◌, ◌^◌, ◌≤◌, List, [], ◌∷◌, ◌++◌, Bool, true, false, ◌||◌, ◌&&◌, not, Option, none,
  some, Result, ok, err, map_err, map_err-eq-ok, ok-injective, ◌≡◌, refl, sym, ap, ◌∙◌, subst,
  arith, append_assoc, Bool-cases, inl, inr, if◌then◌else◌, is_empty, ltb,
}
use tortue.Torrent
use tortue.Torrent.{Metainfo, Mode, single, multiple}
use tortue.Disk.Files.{FileIo}
use tortue.Disk.Paths.{
  Error, FilePath, Component, cur_dir, parent_dir, normal, io, invalid_file, build_path, join,
  join_components, any_parent_dir, without_dot, path_of, from_iter, empty_path, parent,
}
use tortue.Disk.Create.{
  Io, follow, refuse_if, DirectoryIo, CreateError, already_exists, failed, open_old, opened_by,
  open_file, make_parent, make_dir, open_files, open_mode, create_files,
}

-- A path that goes on from another one, without a step up.
abbrev pub IsUnder : FilePath → FilePath → Type 0
IsUnder root p =
    (more : List Component) × (p.is_absolute ≡ root.is_absolute)
    × (p.components ≡ root.components ++ more)
    × (any_parent_dir more ≡ false)

any_parent_dir-append :
    (cs ds : List Component) → any_parent_dir (cs ++ ds) ≡ (any_parent_dir cs || any_parent_dir ds)
unfolding any_parent_dir
any_parent_dir-append [] ds = refl
any_parent_dir-append (c ∷ cs) ds = ground (arith, any_parent_dir-append cs ds)

without_dot-any_parent_dir :
    (cs : List Component) → any_parent_dir cs ≡ false → any_parent_dir (without_dot cs) ≡ false
unfolding any_parent_dir
without_dot-any_parent_dir [] h = h
without_dot-any_parent_dir (cur_dir ∷ cs) h = h
without_dot-any_parent_dir (parent_dir ∷ cs) h = h
without_dot-any_parent_dir (normal p ∷ cs) h = h

IsUnder-trans : (p q r : FilePath) → IsUnder p q → IsUnder q r → IsUnder p r
IsUnder-trans p q r (cs, ha, hc, hn) (ds, ka, kc, kn) = (
  cs ++ ds,
  ka ∙ ha,
  kc ∙ ap (λ t. t ++ ds) hc ∙ append_assoc p.components cs ds,
  any_parent_dir-append cs ds ∙ ground arith,
)

empty_of_test : (cs : List Component) (b : Bool) → (is_empty cs && b) ≡ true → cs ≡ []
empty_of_test [] b h = refl
empty_of_test (c ∷ cs) b h = absurd (cc)

join_components-append :
    (root p : FilePath)
    → any_parent_dir p.components ≡ false
    → (more : List Component) × (join_components root p ≡ root.components ++ more)
      × (any_parent_dir more ≡ false)
join_components-append root p plain =
    elim (Bool-cases (is_empty root.components && not root.is_absolute)) [
      | inl e ↦ (
        p.components,
        rw e (ap (λ t. t ++ p.components) (sym (empty_of_test root.components _ e))),
        plain,
      )
      | inr e ↦ (without_dot p.components, rw e refl, without_dot-any_parent_dir p.components plain)
    ]

join-IsUnder :
    (root p : FilePath)
    → p.is_absolute ≡ false
    → any_parent_dir p.components ≡ false
    → IsUnder root (join root p)
unfolding join
join-IsUnder root p relative plain =
    let (more, same, ok_more) = join_components-append root p plain in
    let joined : FilePath = record {
      is_absolute = root.is_absolute;
      components = join_components root p;
    } in
    subst (IsUnder root) (sym (ap (λ b. if b then p else joined) relative))
      (more, refl, same, ok_more)

pub build_path-IsUnder : (root p q : FilePath) → build_path root p ≡ ok q → IsUnder root q
unfolding build_path
build_path-IsUnder root p q h = elim (Bool-cases (p.is_absolute || any_parent_dir p.components)) [
  | inl e ↦ absurd (cc (rw e at h))
  | inr e ↦
      let relative : p.is_absolute ≡ false = ground arith in
      let plain : any_parent_dir p.components ≡ false = ground arith in
      subst (IsUnder root) (ok-injective (join root p) q (rw e at h))
        (join-IsUnder root p relative plain)
]

module _ {S : Type 0} (P : S → Type 0) where
  -- What a computation keeps, step by step.
  asks :
      {A B : Type 0} (r : Result Error A) (s : S) (k : A → Io S B)
      → P s
      → ((x : A) → r ≡ ok x → P (k x s).1)
      → P (follow (r, s) k).1
  asks (ok x) s k h next = next x refl
  asks (err e) s k h next = h

  refuses :
      {B : Type 0} (b : Bool) (e : Error) (s : S) (k : Unit {0} → Io S B)
      → P s
      → (b ≡ false → P (k tt s).1)
      → P (follow (refuse_if b e s) k).1
  refuses true e s k h next = h
  refuses false e s k h next = next refl

  goes_on :
      {A B : Type 0} (x : Result Error A × S) (k : A → Io S B)
      → P x.1
      → ((a : A) (s : S) → P s → P (k a s).1)
      → P (follow x k).1
  goes_on (ok a, s) k h next = next a s h
  goes_on (err e, s) k h next = h

module _ (files : FileIo) (dirs : DirectoryIo files.File) (P : dirs.FileSystem → Type 0) where
  -- What the calls that change the disk keep, for paths that `IsUnder` allows: the making of the
  -- directory above, a creation, whether they succeed or fail, and a `set_len` of a new file or of a
  -- regular file that is not longer.
  pub record Keeps (root : FilePath) : Type 0 where
    pub directory :
        (p dir : FilePath) (fs : dirs.FileSystem)
        → IsUnder root p
        → parent p ≡ some dir
        → P fs
        → P (dirs.create_dir_all dir fs).1
    pub creation :
        (p : FilePath) (fs : dirs.FileSystem) → IsUnder root p → P fs → P (dirs.create_new p fs).1
    pub resize_new :
        (p : FilePath) (len : ℕ) (fs made : dirs.FileSystem) (f : files.File)
        → IsUnder root p
        → dirs.create_new p fs ≡ (ok f, made)
        → P made
        → P (dirs.set_len len f made).1
    pub resize_old :
        (p : FilePath) (len old : ℕ) (fs : dirs.FileSystem) (f : files.File)
        → IsUnder root p
        → dirs.open_existing p fs ≡ ok f
        → dirs.metadata f fs ≡ ok (true, old)
        → old ≤ len
        → P fs
        → P (dirs.set_len len f fs).1

  module _ (root : FilePath) (k : Keeps root) where
    make_dir-keeps :
        (p : FilePath) (parent_of_p : Option FilePath) (fs : dirs.FileSystem)
        → IsUnder root p
        → parent p ≡ parent_of_p
        → P fs
        → P (make_dir files dirs parent_of_p fs).1
    make_dir-keeps p none fs under e was = was
    make_dir-keeps p (some dir) fs under e was = k.directory p dir fs under e was

    open_old-keeps :
        (p : FilePath) (len : ℕ) (fs : dirs.FileSystem)
        → IsUnder root p
        → P fs
        → P (open_old files dirs p len fs).1
    unfolding open_old
    open_old-keeps p len fs under was =
        asks P (map_err io (dirs.open_existing p fs)) fs _ was λ f e₁.
          asks P (map_err io (dirs.metadata f fs)) fs _ was λ m e₂.
            refuses P (not m.0) invalid_file fs _ was λ e₃.
              refuses P (ltb len m.1) invalid_file fs _ was λ e₄.
                k.resize_old p len m.1 fs f under (map_err-eq-ok io (dirs.open_existing p fs) f e₁)
                  (map_err-eq-ok io (dirs.metadata f fs) m e₂
                    ∙ ap (λ b. ok (b, m.1)) (ground (arith, e₃)))
                  (ground (arith, e₄)) was

    opened_by-keeps :
        (p : FilePath) (len : ℕ) (fs : dirs.FileSystem)
        (c : Result CreateError files.File × dirs.FileSystem)
        → IsUnder root p
        → dirs.create_new p fs ≡ c
        → P c.1
        → P (opened_by files dirs p len c).1
    unfolding opened_by
    opened_by-keeps p len fs (ok f, made) under e was = k.resize_new p len fs made f under e was
    opened_by-keeps p len fs (err already_exists, made) under e was =
        open_old-keeps p len made under was
    opened_by-keeps p len fs (err (failed x), made) under e was = was

    open_file-keeps :
        (p : FilePath) (len : ℕ) (fs : dirs.FileSystem)
        → IsUnder root p
        → P fs
        → P (open_file files dirs p len fs).1
    unfolding open_file
    open_file-keeps p len fs under was =
        opened_by-keeps p len fs (dirs.create_new p fs) under refl (k.creation p fs under was)

    open_files-keeps :
        (base : FilePath) (offset : ℕ) (list : List Torrent.File) (fs : dirs.FileSystem)
        → IsUnder root base
        → P fs
        → P (open_files files dirs base offset list fs).1
    unfolding open_files
    open_files-keeps base offset [] fs under was = was
    open_files-keeps base offset (f ∷ more) fs under was =
        asks P (build_path base (from_iter empty_path f.path)) fs _ was λ p e.
          let here : IsUnder root p =
            IsUnder-trans root base p under
              (build_path-IsUnder base (from_iter empty_path f.path) p e) in
          goes_on P (make_parent files dirs p fs) _ (make_dir-keeps p (parent p) fs here refl was)
            λ made s₁ h₁.
              goes_on P (open_file files dirs p f.len s₁) _ (open_file-keeps p f.len s₁ here h₁)
                λ handle s₂ h₂.
                  goes_on P (open_files files dirs base ((offset + f.len) % 2 ^ 64) more s₂) _
                    (open_files-keeps base ((offset + f.len) % 2 ^ 64) more s₂ under h₂)
                    λ others s₃ h₃. h₃

    open_mode-keeps :
        (base : FilePath) (mode : Mode) (fs : dirs.FileSystem)
        → IsUnder root base
        → P fs
        → P (open_mode files dirs base mode fs).1
    unfolding open_mode
    open_mode-keeps base (single len) fs under was =
        goes_on P (open_file files dirs base len fs) _ (open_file-keeps base len fs under was)
          λ handle s h. h
    open_mode-keeps base (multiple list) fs under was = open_files-keeps base 0 list fs under was

    -- Opening a torrent's files, whether it succeeds or fails, keeps whatever is kept by the calls
    -- that change the disk, namely the making of the directory above a path, the creation of a
    -- file, and `set_len` on a new file or on a regular one that is not longer, for paths that are
    -- the given directory or go on from it without a step up, whatever names the torrent has.
    pub create_files-keeps :
        (m : Metainfo) (fs : dirs.FileSystem) → P fs → P (create_files files dirs m root fs).1
    unfolding create_files
    create_files-keeps m fs was = asks P (build_path root (path_of m.name)) fs _ was λ base e.
        let here : IsUnder root base = build_path-IsUnder root (path_of m.name) base e in
        goes_on P (make_parent files dirs base fs) _
          (make_dir-keeps base (parent base) fs here refl was)
          λ made s h. open_mode-keeps base m.mode s here h
