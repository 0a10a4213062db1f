-- ===== src/Protocol.antt =====
-- common/protocol.h, the constants and pure helpers that server and clients share.
pub mod Constants
pub mod Names
pub mod Policy
pub mod Budget
pub mod Traffic
pub mod Policies
mod Tests
