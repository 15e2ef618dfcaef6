-- ===== src/Screen.antt =====
-- What the terminals of the providers show, before it counts:
-- apps/daemon/src/providers/provider-observation-stabilizer.ts.
pub mod Stabilizer
pub mod Paced
pub mod Dirty
mod Examples
