-- ===== src/Room.antt =====
-- server/src/room.h: the members of a room, their leases and virtual addresses, and the rooms.
pub mod Leases
pub mod Addresses
pub mod Invariant
pub mod Membership
pub mod Manager
mod Tests
