-- ===== src/SignalMessage.antt =====
-- The cursor of common/signal_message_validator.h, which keeps the first error and its offset, and
-- two of the checks made with it. A null pointer comes with length 0.
pub mod Cursor
pub mod Checks
pub mod Errors
pub mod Agree
mod Tests
