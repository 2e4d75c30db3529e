-- ===== src/Editors/Task.antt =====
-- TaskEditor of web/src/features/tasks/index.tsx.
pub mod Form
pub mod Invariant
pub mod Targets
pub mod Definition
pub mod Shown
