-- ===== src/Requests.antt =====
-- The retained results of HTTP requests (`claimHttpIdempotency`, `completeHttpIdempotency` and
-- `executeHttpIdempotency` of apps/daemon/src/store.ts).
mod Keys
mod Keeps
mod Once
mod Settled
mod Examples
