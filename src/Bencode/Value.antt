-- ===== src/Bencode/Value.antt =====
-- domain/bencode.rs: the error and value types, and the std `BTreeMap` that holds a dictionary.
use tortue.Prelude.{ℕ, Bytes, [], ◌∷◌, ◌≡◌, ◌^◌, ◌<◌, length}
use tortue.Prelude.Int.{ℤ, IsI64}
use Prim.Native.Nat.{compare, Ordering}

pub data Error : Type 0 where
  unexpected_eof : Error
  unexpected_byte : ℕ → ℕ → Error
  invalid_token : ℕ → Error
  invalid_integer invalid_string_length invalid_string invalid_dict_key : Error
  key_not_found type_mismatch : Error

-- `Items` is the vector of a list, `Entries` the `BTreeMap` of a dictionary in key order.
mutual
  pub data Bencode : Type 0 where
    int : ℤ → Bencode
    bytes : Bytes → Bencode
    list : Items → Bencode
    dict : Entries → Bencode

  pub data Items : Type 0 where
    no_items : Items
    item : Bencode → Items → Items

  pub data Entries : Type 0 where
    no_entries : Entries
    entry : Bytes → Bencode → Entries → Entries

-- The order of `[u8]`: lexicographic.
unfoldable pub cmp : Bytes → Bytes → Ordering
cmp [] [] = Ordering.eq
cmp [] (b ∷ t) = Ordering.lt
cmp (a ∷ s) [] = Ordering.gt
cmp (a ∷ s) (b ∷ t) = elim (compare a b) [
  | Ordering.lt ↦ Ordering.lt
  | Ordering.gt ↦ Ordering.gt
  | Ordering.eq ↦ cmp s t
]

-- `BTreeMap::insert`: the value of a key that is there is replaced.
unfoldable pub insert : Bytes → Bencode → Entries → Entries
insert k v no_entries = entry k v no_entries
insert k v (entry j w es) = elim (cmp k j) [
  | Ordering.lt ↦ entry k v (entry j w es)
  | Ordering.gt ↦ entry j w (insert k v es)
  | Ordering.eq ↦ entry j v es
]

-- Every key satisfies `P`.
abbrev pub AllKeys : (Bytes → Type 0) → Entries → Type 0
AllKeys P no_entries = Unit
AllKeys P (entry k v es) = P k × AllKeys P es

-- The invariant of the `BTreeMap`: keys strictly ascending.
abbrev pub IsSorted : Entries → Type 0
IsSorted no_entries = Unit
IsSorted (entry k v es) = AllKeys (λ j. cmp k j ≡ Ordering.lt) es × IsSorted es

-- What the Rust types give: 64-bit integers and lengths, and dictionaries that are `BTreeMap`s.
unfoldable mutual
  pub WellFormed : Bencode → Type 0
  WellFormed (int z) = IsI64 z
  WellFormed (bytes b) = length b < 2 ^ 64
  WellFormed (list xs) = WellFormedItems xs
  WellFormed (dict es) = IsSorted es × WellFormedEntries es

  pub WellFormedItems : Items → Type 0
  WellFormedItems no_items = Unit
  WellFormedItems (item v xs) = WellFormed v × WellFormedItems xs

  pub WellFormedEntries : Entries → Type 0
  WellFormedEntries no_entries = Unit
  WellFormedEntries (entry k v es) = (length k < 2 ^ 64) × WellFormed v × WellFormedEntries es
