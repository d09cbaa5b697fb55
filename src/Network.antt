-- ===== src/Network.antt =====
-- The class `NetworkManager`: NetworkManager.hpp and src/NetworkManager.cpp, in four parts.
pub mod Manager
pub mod Fragments
pub mod Sending
pub mod Receiving
pub mod Clients
