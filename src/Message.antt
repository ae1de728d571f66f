-- ===== src/Message.antt =====
-- domain/message.rs: the messages of the peer protocol and their payloads.
pub mod Tests
pub mod Handshake
pub mod Types
pub mod Codec
pub mod HandshakeRoundTrip
pub mod Frame
pub mod RoundTrip
pub mod Metadata
pub mod Pex
pub mod PexLaws
pub mod PexRoundTrip
