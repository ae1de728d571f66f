-- ===== src/Message/Frame.antt =====
-- adapters/peer_io.rs, `Message::frame` and `Message::read_from`: the length prefix on the stream.
use tortue.Prelude.{
  ℕ, ◌*◌, ◌%◌, ◌^◌, Bytes, ◌++◌, Result, ok, err, map_err, ltb, if◌then◌else◌, length, take, drop,
  ◌>>=◌,
}
use tortue.Prelude.Be.{to_be_bytes32, from_be_bytes}
use tortue.Message.Types
use tortue.Message.Types.{Message}
use tortue.Message.Codec

-- `io` stands for the stream that ends too early (`read_exact`).
pub data Error : Type 0 where
  io message_too_large : Error
  message_decode : Types.Error → Error

abbrev pub max_message_size : ℕ
max_message_size = 1024 * 1024

unfoldable pub frame : Message → Bytes
unfolding Codec.encode
frame m = let payload = Codec.encode m in to_be_bytes32 (length payload % 2 ^ 32) ++ payload

-- `read_exact` of `n` bytes from what the stream still delivers.
unfoldable pub read_exact : ℕ → Bytes → Result Error (Bytes × Bytes)
read_exact n s = if ltb (length s) n then err io else ok (take n s, drop n s)

unfoldable pub read_from : Bytes → Result Error (Message × Bytes)
unfolding read_exact Codec.decode
read_from stream = do
  (header, body) ← read_exact 4 stream
  let len = from_be_bytes header
  (payload, rest) ← if ltb max_message_size len then err message_too_large else read_exact len body
  message ← map_err message_decode (Codec.decode payload)
  ok (message, rest)
