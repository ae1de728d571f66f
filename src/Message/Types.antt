-- ===== src/Message/Types.antt =====
-- domain/message.rs: `Error` and `Message`.
use tortue.Prelude.{ℕ, Bytes, Bool, true, false}
use tortue.Bencode.Value
use tortue.Net.{BlockRange}
use tortue.Message.Handshake.{ExtensionHandshake}

pub data Error : Type 0 where
  invalid_message : Error
  bencode : Value.Error → Error

pub data Message : Type 0 where
  keep_alive choke unchoke interested not_interested : Message
  have : ℕ → Message
  bitfield : Bytes → Message
  request : BlockRange → Message
  piece : BlockRange → Bytes → Message
  cancel : BlockRange → Message
  extension_handshake : ExtensionHandshake → Message
  extension : ℕ → Bytes → Message
  suggest_piece : ℕ → Message
  have_all have_none : Message
  reject_request : BlockRange → Message
  allowed_fast : ℕ → Message
  unimplemented : Message

-- The messages that only a peer with the Fast Extension may send.
unfoldable pub needs_fast : Message → Bool
needs_fast have_all = true
needs_fast have_none = true
needs_fast (suggest_piece p) = true
needs_fast (reject_request r) = true
needs_fast (allowed_fast p) = true
needs_fast _ = false

unfoldable pub affects_scheduling : Message → Bool
affects_scheduling unchoke = true
affects_scheduling (allowed_fast p) = true
affects_scheduling (piece r d) = true
affects_scheduling _ = false
