-- ===== src/Net.antt =====
-- std's `SocketAddr`, and domain/block.rs: the values that the other parts use as keys.
use tortue.Prelude.{
  ℕ, ◌*◌, Bytes, Bool, true, false, ◌&&◌, ◌==◌, bytes_beq, bytes_beq_iff, Eq, ◌↔◌, ◌≡◌, arith,
}

-- The octets of the address, and the port.
pub data SocketAddr : Type 0 where
  v4 : Bytes → ℕ → SocketAddr
  v6 : Bytes → ℕ → SocketAddr

abbrev pub addr_beq : SocketAddr → SocketAddr → Bool
addr_beq (v4 a p) (v4 b q) = bytes_beq a b && p == q
addr_beq (v6 a p) (v6 b q) = bytes_beq a b && p == q
addr_beq _ _ = false

pub addr_beq_iff : (a b : SocketAddr) → (addr_beq a b ≡ true) ↔ (a ≡ b)
addr_beq_iff (v4 a p) (v4 b q) = ground (arith, bytes_beq_iff a b)
addr_beq_iff (v4 a p) (v6 b q) = ground arith
addr_beq_iff (v6 a p) (v4 b q) = ground arith
addr_beq_iff (v6 a p) (v6 b q) = ground (arith, bytes_beq_iff a b)

instance abbrev pub addr_eq : Eq SocketAddr
addr_eq = record { beq = addr_beq; beq_iff = addr_beq_iff }

-- `BLOCK_SIZE`, 16 KiB
abbrev pub block_size : ℕ
block_size = 16 * 1024

pub record BlockRange : Type 0 where
  pub piece_index : ℕ
  pub piece_offset : ℕ
  pub len : ℕ

abbrev pub range_beq : BlockRange → BlockRange → Bool
range_beq a b = a.piece_index == b.piece_index && a.piece_offset == b.piece_offset && a.len == b.len

pub range_beq_iff : (a b : BlockRange) → (range_beq a b ≡ true) ↔ (a ≡ b)
range_beq_iff a b = ground arith

instance abbrev pub range_eq : Eq BlockRange
range_eq = record { beq = range_beq; beq_iff = range_beq_iff }
