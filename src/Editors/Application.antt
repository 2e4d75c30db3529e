-- ===== src/Editors/Application.antt =====
-- ApplicationEditor of web/src/features/editors/index.tsx.
pub mod Form
pub mod Save
pub mod Assignment
pub mod Completion
pub mod Failure
