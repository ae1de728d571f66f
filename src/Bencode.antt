-- ===== src/Bencode.antt =====
-- domain/bencode.rs: the serialisation of .torrent files, of tracker replies and of the extension
-- messages. The children hold the values, the decoder, the encoder and the proofs about them.
pub mod Tests
pub mod Value
pub mod Number
pub mod Utf8
pub mod Token
pub mod Decoder
pub mod Keys
pub mod Scan
pub mod RoundTrip
pub mod Decoded
pub mod Access
pub mod Encoder
