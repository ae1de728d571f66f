-- ===== src/Metadata.antt =====
-- domain/metadata.rs: how the info dictionary of a magnet link is fetched from peers.
pub mod Laws
pub mod Driver
pub mod DriverLaws
pub mod Foreign
pub mod Complete
pub mod Tests
use tortue.Prelude.{
  ℕ, zero, suc, ◌+◌, ◌/◌, ◌%◌, Bytes, List, [], ◌∷◌, ◌++◌, Bool, true, false, not, ◌||◌, Option,
  none, some, Result, ok, err, leb, ◌==◌, if◌then◌else◌, length, get_or, set, replicate, codes,
  bytes_beq, bytes_eq, nat_eq,
}
use tortue.Prelude.Dict.{get, insert, remove}
use tortue.Net.{SocketAddr, addr_eq, addr_beq}
use tortue.Message.Types.{Error, Message, extension_handshake, extension}
use tortue.Message.Handshake.{ExtensionHandshake}
use tortue.Message.Metadata as UtMetadata
use tortue.Message.Metadata.{UtMetadataMessage, data_block, reject}

pub data Input : Type 0 where
  peers_discovered : List SocketAddr → Input
  peer_disconnected : SocketAddr → Input
  message_received : SocketAddr → Message → Input

-- `finished` is `Done`.
pub data Output : Type 0 where
  connect_peer : SocketAddr → Output
  send_to_peer : SocketAddr → Message → Output
  finished : Bytes → Output

pub record Metadata : Type 0 where
  pub info_hash : Bytes
  pub total_size : Option ℕ
  pub pieces : List (Option Bytes)
  pub peers : List (SocketAddr × ℕ)

abbrev pub piece_size : ℕ
piece_size = 16384

unfoldable pub new : Bytes → Metadata
new info_hash = record { info_hash = info_hash; total_size = none; pieces = []; peers = [] }

-- `usize::div_ceil`
abbrev pub div_ceil : ℕ → ℕ → ℕ
div_ceil n k = n / k + (if n % k == 0 then 0 else 1)

unfoldable pub make_request : SocketAddr → ℕ → ℕ → Output
make_request a ext_id piece =
    send_to_peer a (extension ext_id (UtMetadata.encode (UtMetadata.request piece)))

-- The requests for the pieces that are missing, the first of the list being number `i`.
unfoldable pub missing : SocketAddr → ℕ → ℕ → List (Option Bytes) → List Output
missing a ext_id i [] = []
missing a ext_id i (none ∷ pieces) = make_request a ext_id i ∷ missing a ext_id (suc i) pieces
missing a ext_id i (some d ∷ pieces) = missing a ext_id (suc i) pieces

unfoldable pub request_missing_from : SocketAddr → Metadata → List Output
unfolding missing
request_missing_from a s = elim (get a s.peers) [
  | none ↦ []
  | some ext_id ↦ missing a ext_id 0 s.pieces
]

unfoldable pub request_piece_from : SocketAddr → ℕ → Metadata → List Output
request_piece_from a piece s = elim (get a s.peers) [
  | none ↦ []
  | some ext_id ↦ make_request a ext_id piece ∷ []
]

-- `flat_map` over the known peers, each of which is a key of the table.
unfoldable pub request_from_all : List (SocketAddr × ℕ) → Metadata → List Output
unfolding request_missing_from
request_from_all [] s = []
request_from_all ((a, ext_id) ∷ peers) s = request_missing_from a s ++ request_from_all peers s

-- `keys().find`
unfoldable pub other_peer : SocketAddr → List (SocketAddr × ℕ) → Option SocketAddr
other_peer a [] = none
other_peer a ((b, ext_id) ∷ peers) =
    let later = other_peer a peers in if not (addr_beq b a) then some b else later

unfoldable pub concat : List (Option Bytes) → Bytes
concat [] = []
concat (none ∷ pieces) = concat pieces
concat (some d ∷ pieces) = d ++ concat pieces

unfoldable pub all_there : List (Option Bytes) → Bool
all_there [] = true
all_there (none ∷ pieces) = false
all_there (some d ∷ pieces) = all_there pieces

abbrev pub is_there : Option Bytes → Bool
is_there none = false
is_there (some d) = true

-- The first size that is announced is taken.
unfoldable pub sized_by : Option ℕ → ℕ → Metadata → Metadata
sized_by none size s = record s {
  total_size = some size;
  pieces = replicate (div_ceil size piece_size) none;
}
sized_by (some n) size s = s

unfoldable pub ask_other : Option SocketAddr → ℕ → Metadata → List Output × Metadata
unfolding request_piece_from
ask_other none piece s = ([], s)
ask_other (some b) piece s = (request_piece_from b piece s, s)

abbrev pub is_extension_of : Option ℕ → ℕ → Bool
is_extension_of none ext_id = false
is_extension_of (some known) ext_id = known == ext_id

unfoldable pub connects : List SocketAddr → List Output
connects [] = []
connects (a ∷ addrs) = connect_peer a ∷ connects addrs

module _ (sha1 : Bytes → Bytes) where
  unfoldable pub try_finalize : Metadata → List Output × Metadata
  unfolding concat request_from_all
  try_finalize s =
      let gathered = concat s.pieces in
      let emptied : Metadata = record s { pieces = replicate (length s.pieces) none } in
      if bytes_beq (sha1 gathered) s.info_hash
      then (finished gathered ∷ [], s)
      else (request_from_all s.peers emptied, emptied)

  -- The branch of a handshake with both fields.
  unfoldable pub on_size : SocketAddr → ℕ → ℕ → Metadata → List Output × Metadata
  unfolding request_missing_from sized_by
  on_size a ext_id size s =
      let sized = sized_by s.total_size size s in
      let known : Metadata = record sized { peers = insert a ext_id sized.peers } in
      (request_missing_from a known, known)

  -- The two fields that a handshake must have.
  abbrev pub with_fields : SocketAddr → Option ℕ → Option ℕ → Metadata → List Output × Metadata
  with_fields a none metadata_size s = ([], s)
  with_fields a (some ext_id) none s = ([], s)
  with_fields a (some ext_id) (some size) s = on_size a ext_id size s

  unfoldable pub on_handshake : SocketAddr → ExtensionHandshake → Metadata → List Output × Metadata
  unfolding on_size
  on_handshake a hs s = with_fields a (get (codes "ut_metadata") hs.extensions) hs.metadata_size s

  -- The branch of a block.
  unfoldable pub on_data : ℕ → Bytes → Metadata → List Output × Metadata
  unfolding try_finalize all_there
  on_data piece d s =
      let filled : Metadata = record s { pieces = set s.pieces piece (some d) } in
      if leb (length s.pieces) piece || is_there (get_or s.pieces piece none)
      then ([], s)
      else if all_there filled.pieces
      then try_finalize filled
      else ([], filled)

  -- The match on a decoded message of the extension.
  unfoldable pub on_metadata_message :
      SocketAddr → Result Error UtMetadataMessage → Metadata → List Output × Metadata
  unfolding on_data other_peer ask_other
  on_metadata_message a (err e) s = ([], s)
  on_metadata_message a (ok (data_block piece total d)) s = on_data piece d s
  on_metadata_message a (ok (reject piece)) s = ask_other (other_peer a s.peers) piece s
  on_metadata_message a (ok _) s = ([], s)

  unfoldable pub on_message : SocketAddr → Message → Metadata → List Output × Metadata
  unfolding on_handshake on_metadata_message
  on_message a (extension_handshake hs) s = on_handshake a hs s
  on_message a (extension ext_id payload) s =
      if not (is_extension_of (get a s.peers) ext_id)
      then ([], s)
      else on_metadata_message a (UtMetadata.decode payload) s
  on_message a _ s = ([], s)

  unfoldable pub step : Input → Metadata → List Output × Metadata
  unfolding on_message connects
  step (peers_discovered addrs) s = (connects addrs, s)
  step (peer_disconnected a) s = ([], record s { peers = remove a s.peers })
  step (message_received a msg) s = on_message a msg s
