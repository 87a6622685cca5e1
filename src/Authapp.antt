-- ===== src/Authapp.antt =====
-- The package internal/authapp: the authorization server as an application.
pub mod Ratelimit
pub mod Config
pub mod Runtime
pub mod Signing
pub mod Materials
pub mod App
pub mod Yaml
pub mod Loading
pub mod Security
pub mod Routes
