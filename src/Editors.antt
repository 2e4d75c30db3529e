-- ===== src/Editors.antt =====
-- web/src/features/editors/index.tsx and TaskEditor of web/src/features/tasks/index.tsx: the forms
-- in which the objects of the hub are made and changed.
pub mod Draft
pub mod Application
pub mod Task
pub mod Schedule
pub mod Script
pub mod Group
pub mod Saving
pub mod Artifact
