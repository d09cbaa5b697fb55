-- ===== src/Crypto.antt =====
-- The class `Crypto`: Crypto.hpp and src/Crypto.cpp.
pub mod Tables
pub mod Block
pub mod Padding
pub mod Modes
pub mod Hash
