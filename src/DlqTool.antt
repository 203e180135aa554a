-- ===== src/DlqTool.antt =====
-- src/scripts/dlq_tool.py: dead letters are read, shown and replayed.
pub mod Records
pub mod Reading
pub mod Replay
pub mod Bounds
pub mod Audits
pub mod Completion
pub mod Skipped
mod Tests
