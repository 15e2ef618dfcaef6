-- ===== src/Messages.antt =====
-- Messages between operators and agents: who may send what to whom, and how long it is kept
-- (`submitMessage`, `clearMessageHistory` and `listMessagePage` of apps/daemon/src/store.ts).
mod Types
mod Audiences
mod Causation
mod Store
mod Operations
mod Walks
mod Recipients
mod Submits
mod Distinct
mod Stored
mod Sends
mod Keyed
mod Rising
mod Sequences
mod Held
mod Once
mod Examples
