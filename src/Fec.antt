-- ===== src/Fec.antt =====
-- client-cli/src/cli_fec.h and cli_fec.cpp: forward error correction of a tunnel's packets.
pub mod Encoder
pub mod Decoder
pub mod Bytes
pub mod Capacity
pub mod Receive
pub mod Steps
pub mod Transfer
mod Tests
