-- ===== src/Sync.antt =====
-- Deterministic playlist snapshots and their differences (backend/app/core/sync.py).
pub mod Snapshot
pub mod Diff
pub mod Numbered
pub mod Quotas
pub mod Balance
pub mod Silence
mod Tests
