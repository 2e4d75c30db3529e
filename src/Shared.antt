-- ===== src/Shared.antt =====
-- web/src/features/shared/ui.tsx: how times are shown on every page.
pub mod Relative
pub mod Duration
pub mod Clipboard
pub mod Badge
