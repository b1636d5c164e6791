-- ===== src/Call.antt =====
-- src/Call.c and include/rawr/Call.h: the life of a SIP call.
pub mod State
pub mod Handlers
pub mod Steps
pub mod Parts
pub mod Thread
pub mod Block
pub mod Stop
pub mod Flag
pub mod Early
pub mod Session
pub mod Send
pub mod Receive
pub mod Crypto
mod Examples
