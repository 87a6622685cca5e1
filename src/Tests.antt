-- ===== src/Tests.antt =====
-- The theorems at concrete inputs.
pub mod Scopes
pub mod Verifying
pub mod Issuing
pub mod Keys
pub mod Serving
pub mod Sharing
pub mod Requesting
pub mod Guarding
pub mod Running
pub mod Arguing
pub mod Disks
pub mod Encoding
pub mod Mounting
pub mod Passing
pub mod Starting
pub mod Securing
pub mod Fetching
pub mod Limiting
