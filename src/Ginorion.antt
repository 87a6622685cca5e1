-- ===== src/Ginorion.antt =====
-- ginorion: the middleware that guards the handlers of a gin engine, and the routes of the server.
pub mod Guard
pub mod Routes
