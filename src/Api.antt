-- ===== src/Api.antt =====
-- web/src/lib/api.ts: the records that the console exchanges with the hub. An optional member is an
-- Option, numbers are whole numbers, and a Record<string, string> is a dictionary.
pub mod Scripts
pub mod Tasks
pub mod Fleet
pub mod Applications
pub use Scripts.*
pub use Tasks.*
pub use Fleet.*
pub use Applications.*
