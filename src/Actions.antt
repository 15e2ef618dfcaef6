-- ===== src/Actions.antt =====
-- Actions on agents, from the request to the settled result: the action tables of
-- apps/daemon/src/store.ts and apps/daemon/src/actions/agent-action-scheduler.ts.
pub mod Types
pub mod Readiness
pub mod Rows
pub mod Attempts
pub mod Transitions
pub mod Acknowledgements
pub mod Scheduler
pub mod Once
pub mod Safe
pub mod Ends
pub mod Moves
pub mod Reach
pub mod Begins
mod Settles
pub mod Replays
mod Examples
