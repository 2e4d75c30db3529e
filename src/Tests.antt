-- ===== src/Tests.antt =====
-- The theorems at concrete inputs.
pub mod Tables
pub mod Sessions
pub mod Redirects
pub mod Transfer
pub mod Forms
pub mod Lists
pub mod Layout
pub mod Controls
pub mod Catalog
pub mod Shell
pub mod Logs
pub mod Detail
pub mod Console
