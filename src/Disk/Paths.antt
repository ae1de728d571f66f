-- ===== src/Disk/Paths.antt =====
-- adapters/disk_storage.rs, `build_path`, and std's `Path`: its components, as on Unix.
use tortue.Prelude.{
  ◌∷◌, ◌++◌, Bytes, List, [], Bool, true, false, ◌||◌, ◌&&◌, not, Option, none, some, Result, ok,
  err, ◌==◌, bytes_beq, codes, if◌then◌else◌, is_empty,
}
use tortue.Disk.Files.{IoError}

pub data Error : Type 0 where
  io : IoError → Error
  path_traversal invalid_file : Error

pub data Component : Type 0 where
  cur_dir parent_dir : Component
  normal : Bytes → Component

-- A path is told by its components: std compares paths by them.
pub record FilePath : Type 0 where
  pub is_absolute : Bool
  pub components : List Component

-- What stands between slashes. The last piece comes first of all as `piece` grows.
unfoldable pub split : Bytes → Bytes → List Bytes
split piece [] = piece ∷ []
split piece (c ∷ s) =
    let longer = split (piece ++ c ∷ []) s in
    let next = split [] s in if c == b'/' then piece ∷ next else longer

-- An empty piece is no component, nor is a dot behind the first.
unfoldable pub components_of : Bool → List Bytes → List Component
components_of first [] = []
components_of first (p ∷ pieces) =
    let more = components_of false pieces in
    if is_empty p
    then more
    else if bytes_beq p (codes "..")
    then parent_dir ∷ more
    else if bytes_beq p (codes ".")
    then (if first then cur_dir ∷ more else more)
    else normal p ∷ more

abbrev pub starts_with_slash : Bytes → Bool
starts_with_slash [] = false
starts_with_slash (c ∷ s) = c == b'/'

-- `Path::new`
unfoldable pub path_of : Bytes → FilePath
unfolding split components_of
path_of s = record {
  is_absolute = starts_with_slash s;
  components = components_of true (split [] s);
}

abbrev pub empty_path : FilePath
empty_path = record { is_absolute = false; components = [] }

-- A leading dot is a component of a relative path only.
abbrev pub without_dot : List Component → List Component
without_dot [] = []
without_dot (cur_dir ∷ cs) = cs
without_dot (parent_dir ∷ cs) = parent_dir ∷ cs
without_dot (normal p ∷ cs) = normal p ∷ cs

abbrev pub join_components : FilePath → FilePath → List Component
join_components root p =
    if is_empty root.components && not root.is_absolute
    then p.components
    else root.components ++ without_dot p.components

-- `join` and `push`: an absolute path replaces the one that it is joined to.
unfoldable pub join : FilePath → FilePath → FilePath
join root p =
    if p.is_absolute
    then p
    else record { is_absolute = root.is_absolute; components = join_components root p }

-- `PathBuf::from_iter`
unfoldable pub from_iter : FilePath → List Bytes → FilePath
unfolding join path_of
from_iter p [] = p
from_iter p (s ∷ more) = from_iter (join p (path_of s)) more

abbrev pub is_parent_dir : Component → Bool
is_parent_dir parent_dir = true
is_parent_dir _ = false

unfoldable pub any_parent_dir : List Component → Bool
any_parent_dir [] = false
any_parent_dir (c ∷ cs) = is_parent_dir c || any_parent_dir cs

unfoldable pub build_path : FilePath → FilePath → Result Error FilePath
unfolding any_parent_dir join
build_path root p =
    if p.is_absolute || any_parent_dir p.components then err path_traversal else ok (join root p)

-- All but the last.
unfoldable pub init : List Component → List Component
init [] = []
init (c ∷ []) = []
init (c ∷ d ∷ cs) = c ∷ init (d ∷ cs)

-- `Path::parent`
unfoldable pub parent : FilePath → Option FilePath
unfolding init
parent p =
    if is_empty p.components then none else some (record p { components = init p.components })
