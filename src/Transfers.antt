-- ===== src/Transfers.antt =====
-- web/src/features/transfers/index.tsx: the form that starts a file transfer, and the actions that
-- the list of transfers offers.
pub mod Form
pub mod Targets
pub mod Actions
