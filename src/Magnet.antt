-- ===== src/Magnet.antt =====
-- domain/magnet.rs: a magnet link and the info hash that it names.
pub mod Laws
pub mod LinkLaws
pub mod Tests
use tortue.Prelude.{
  ℕ, suc, ◌+◌, ◌-◌, ◌*◌, ◌/◌, ◌%◌, ◌^◌, Bytes, List, [], ◌∷◌, ◌++◌, Bool, ◌&&◌, Option, none, some,
  Result, ok, err, ◌>>=◌, map_err, ok_or, ltb, leb, ◌==◌, bytes_beq, if◌then◌else◌, codes, length,
  take, drop,
}

pub record MagnetLink : Type 0 where
  pub info_hash : Bytes
  pub trackers : List Bytes
  pub name : Option Bytes
  pub peers : List Bytes

-- Without the text.
pub data Error : Type 0 where
  invalid_scheme missing_xt invalid_info_hash : Error

abbrev pub alphabet : Bytes
alphabet = codes "ABCDEFGHIJKLMNOPQRSTUVWXYZ234567"

abbrev pub to_ascii_uppercase : ℕ → ℕ
to_ascii_uppercase b = if leb 97 b && leb b 122 then b - 32 else b

-- `iter().position`
unfoldable pub position : ℕ → Bytes → Option ℕ
position b [] = none
position b (c ∷ s) =
    let later = position b s in
    if c == b then some 0 else elim later [ none ↦ none | some i ↦ some (suc i) ]

-- The variables of the loop.
pub record Bits : Type 0 where
  pub bits : ℕ
  pub bit_count : ℕ
  pub output : Bytes

-- A round on a digit below 32: the shift is `u32`'s, the low five bits of a shifted number are free,
-- and the mask keeps the bits below `bit_count`.
unfoldable pub push_digit : ℕ → Bits → Bits
push_digit digit b =
    let shifted = b.bits * 32 % 2 ^ 32 + digit in
    let count = b.bit_count + 5 in
    if leb 8 count
    then record {
      bits = shifted % 2 ^ (count - 8);
      bit_count = count - 8;
      output = b.output ++ (shifted / 2 ^ (count - 8) % 256) ∷ [];
    }
    else record { bits = shifted; bit_count = count; output = b.output }

unfoldable pub decode_from : Bytes → Bits → Result Error Bytes
unfolding position push_digit
decode_from [] b = ok b.output
decode_from (c ∷ s) b = do
  digit ← ok_or (position (to_ascii_uppercase c) alphabet) invalid_info_hash
  decode_from s (push_digit digit b)

unfoldable pub base32_decode : Bytes → Result Error Bytes
unfolding decode_from
base32_decode s = decode_from s (record { bits = 0; bit_count = 0; output = [] })

-- `try_into` an array of 20 bytes.
abbrev pub twenty : Bytes → Result Error Bytes
twenty s = if length s == 20 then ok s else err invalid_info_hash

-- `str::split` at a byte.
unfoldable pub split : ℕ → Bytes → Bytes × List Bytes
split sep [] = ([], [])
split sep (c ∷ s) =
    let (part, parts) = split sep s in if c == sep then ([], part ∷ parts) else (c ∷ part, parts)

-- `str::split_once`
unfoldable pub split_once : ℕ → Bytes → Option (Bytes × Bytes)
split_once sep [] = none
split_once sep (c ∷ s) =
    let later = split_once sep s in
    if c == sep
    then some ([], s)
    else elim later [ none ↦ none | some (before, behind) ↦ some (c ∷ before, behind) ]

abbrev pub strip_prefix : Bytes → Bytes → Option Bytes
strip_prefix prefix s =
    if bytes_beq (take (length prefix) s) prefix then some (drop (length prefix) s) else none

-- The variables of the loop over the parameters.
pub record Fields : Type 0 where
  pub info_hash : Option Bytes
  pub trackers : List Bytes
  pub name : Option Bytes
  pub peers : List Bytes

abbrev pub no_fields : Fields
no_fields = record { info_hash = none; trackers = []; name = none; peers = [] }

-- `hex_decode` is the hex crate's, `percent_decode` the percent-encoding crate's, with what is no
-- UTF-8 replaced.
module _ (hex_decode : Bytes → Option Bytes) (percent_decode : Bytes → Bytes) where
  unfoldable pub parse_btih : Bytes → Result Error Bytes
  unfolding base32_decode
  parse_btih hash =
      if length hash == 40
      then ok_or (hex_decode hash) invalid_info_hash >>= twenty
      else if length hash == 32
      then base32_decode hash >>= twenty
      else err invalid_info_hash

  -- The arm for `xt`: the first info hash counts.
  unfoldable pub stripped : Option Bytes → Result Error (Option Bytes)
  unfolding parse_btih
  stripped none = ok none
  stripped (some hash) = parse_btih hash >>= λ h. ok (some h)

  unfoldable pub topic : Option Bytes → Bytes → Result Error (Option Bytes)
  unfolding stripped
  topic (some hash) value = ok (some hash)
  topic none value = stripped (strip_prefix (codes "urn:btih:") value)

  -- The match on the key.
  unfoldable pub field : Bytes → Bytes → Fields → Result Error Fields
  unfolding topic
  field key value f =
      if bytes_beq key (codes "xt")
      then (topic f.info_hash value >>= λ hash. ok (record f { info_hash = hash }))
      else if bytes_beq key (codes "dn")
      then ok (record f { name = some value })
      else if bytes_beq key (codes "tr")
      then ok (record f { trackers = f.trackers ++ value ∷ [] })
      else if bytes_beq key (codes "x.pe")
      then ok (record f { peers = f.peers ++ value ∷ [] })
      else ok f

  unfoldable pub fields : List Bytes → Fields → Result Error Fields
  unfolding field split_once
  fields [] f = ok f
  fields (param ∷ params) f = elim (split_once b'=' param) [
    | none ↦ fields params f
    | some (key, raw_value) ↦ field key (percent_decode raw_value) f >>= fields params
  ]

  abbrev pub link_of : Fields → Result Error MagnetLink
  link_of f = ok_or f.info_hash missing_xt >>= λ hash.
      ok (record { info_hash = hash; trackers = f.trackers; name = f.name; peers = f.peers })

  unfoldable pub try_from : Bytes → Result Error MagnetLink
  unfolding fields split
  try_from s = do
    query ← ok_or (strip_prefix (codes "magnet:?") s) invalid_scheme
    let params = split b'&' query
    f ← fields (params.0 ∷ params.1) no_fields
    link_of f
