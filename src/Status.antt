-- ===== src/Status.antt =====
-- The status of an agent run: apps/daemon/src/agent-status-reducer.ts.
pub mod Enums
pub mod Types
pub mod Steps
pub mod Reporter
pub mod Processes
pub mod Reducer
pub mod Keeps
pub mod Waits
pub mod Ready
pub mod History
pub mod Completions
pub mod Stuck
pub mod Distinct
pub mod Examples
