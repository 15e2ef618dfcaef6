-- ===== src/Reporters.antt =====
-- The sessions of the reporters that tell the daemon what an agent does, and the events that it
-- takes from them (apps/daemon/src/store.ts).
mod Types
mod Waits
mod Sessions
mod Ingestion
mod Rows
mod Steps
mod Changes
mod Owners
mod Sequences
mod Opens
mod Handshakes
mod Fences
mod Examples
