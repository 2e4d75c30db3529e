-- ===== src/Catalog.antt =====
-- web/src/features/catalog/index.tsx: the lists of nodes, tasks, schedules and scripts.
pub mod Targets
pub mod Desired
pub mod Agreement
pub mod Enrollment
pub mod Users
pub mod Settings
pub mod Lists
pub mod Labels
pub mod NodeApplications
pub mod ExecutionRows
