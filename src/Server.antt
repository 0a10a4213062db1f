-- ===== src/Server.antt =====
-- server/src/signal_server.cpp: the sessions of the signal server, their indexes and rooms.
pub mod State
pub mod Index
pub mod Send
pub mod Stable
pub mod Flush
pub mod Accounting
pub mod Deliver
pub mod RoomList
pub mod Pages
pub mod Delta
pub mod Rooms
pub mod Expiry
pub mod Teardown
pub mod Handlers
pub mod RoomHandlers
pub mod LeaseHandlers
pub mod Dispatch
pub mod Accounts
pub mod Isolation
pub mod Resume
mod Tests
