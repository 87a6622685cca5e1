-- ===== src/Client.antt =====
-- The package client: it fetches tokens, keeps them, and adds them to requests.
pub mod Tokens
pub mod Requests
pub mod Cache
pub mod Provider
pub mod Config
