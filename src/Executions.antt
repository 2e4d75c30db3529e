-- ===== src/Executions.antt =====
-- web/src/features/executions/index.tsx: the list and the page of an execution, and starting a task.
pub mod Logs
pub mod Search
pub mod RunTask
pub mod Detail
