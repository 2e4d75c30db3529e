-- ===== src/Overview.antt =====
-- web/src/features/overview/index.tsx: the numbers on the dashboard.
pub mod Figures
pub mod Health
pub mod Load
