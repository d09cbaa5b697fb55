-- ===== src/MessageHandler.antt =====
-- The class `MessageHandler`: message/MessageHandler.hpp and src/MessageHandler.cpp.
pub mod Types
pub mod Operations
pub mod Settings
pub mod Processing
pub mod Histories
pub mod Bounds
pub mod Sends
pub mod Timeouts
