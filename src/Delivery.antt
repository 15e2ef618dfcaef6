-- ===== src/Delivery.antt =====
-- The delivery of messages to the terminals of agents: the delivery operations of
-- apps/daemon/src/store.ts and apps/daemon/src/delivery-dispatcher.ts.
pub mod Types
pub mod Rows
pub mod Claims
pub mod Failures
pub mod Dispatcher
pub mod Keys
pub mod Operations
pub mod Fencing
pub mod Moves
pub mod Attempts
pub mod Examples
