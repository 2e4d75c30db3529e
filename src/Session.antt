-- ===== src/Session.antt =====
-- web/src/lib/api.ts (the token and the requests) and web/src/stores/auth-store.ts (the signed-in
-- user): what the console knows of its session with the hub.
pub mod Client
pub mod Request
pub mod Store
pub mod Sync
pub mod Layout
pub mod SignIn
