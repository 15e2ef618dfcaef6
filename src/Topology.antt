-- ===== src/Topology.antt =====
-- The order of groups and agents in the configuration (apps/daemon/src/topology-order-service.ts
-- and membership-order.ts).
mod Entries
mod Service
mod Sorting
mod Records
mod Picks
mod Reads
mod Lookups
mod Places
mod Idles
mod Reparents
mod Examples
