-- ===== src/Terminal.antt =====
-- Who may type into the terminal of a run: apps/daemon/src/terminal/terminal-control-service.ts and
-- apps/daemon/src/terminal/terminal-input-arbiter.ts.
pub mod Types
pub mod Control
pub mod Departures
pub mod Valid
pub mod Keeps
pub mod Moves
pub mod Leaves
pub mod Expiry
pub mod Reach
pub mod Arbiter
pub mod Input
pub mod Service
pub mod Bindings
mod Examples
