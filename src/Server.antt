-- ===== src/Server.antt =====
-- The package server: the authorization server that issues tokens.
pub mod Scopes
pub mod Client
pub mod Store
pub mod TokenService
pub mod Config
pub mod Http
