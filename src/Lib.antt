-- ===== src/Lib.antt =====
-- Nanasa runs coding agents in terminals, and its daemon decides what state each agent is in,
-- which messages and prompts are typed into which terminal, and who else may type there. This
-- library models nine parts of the daemon (apps/daemon/src) that carry those decisions.
--
-- Status. The files under Status model agent-status-reducer.ts whole. Enums and Types hold the
-- enumerations and records of packages/contracts/src/status.ts and the reducer's own
-- observations and state; Steps has its helpers (appendLimited, transition, withEvidence,
-- resumeAfterWait, createAgentStatusReducerState); Reducer has one function for each kind of
-- observation, and Processes those for the process of a run, and Reporter the branch for the
-- events of a reporter. `reduce` is reduceAgentStatus, and `replay` feeds it the observations of
-- a run in their order. Keeps, Waits, Ready, History, Completions, Stuck and Distinct prove
-- properties.
--
-- Delivery. Types and Rows hold the tables and the SQL that reads them; Claims and Failures have
-- the operations of store.ts (claimDeliveries, beginDelivery, markDeliveryTerminalInjected;
-- failDeliveryAttempt, revokeClaim, rejectClaim, removeMembership) as functions from the
-- database to the database; Dispatcher has #deliver and #retry of delivery-dispatcher.ts, cut at
-- the call of the terminal, so that other dispatchers may act in between. Operations lists the
-- operations that any dispatcher may run; Keys, Fencing, Moves and Attempts prove properties of
-- them in any order.
--
-- Terminal. Control and Departures have the operations of terminal/terminal-control-service.ts
-- on one run, Service those on all runs, and Arbiter terminal/terminal-input-arbiter.ts. A
-- viewer's close callback, the audit trail and the callback of a takeover are a log. Valid,
-- Keeps, Moves, Leaves, Expiry, Reach, Input and Bindings prove properties; Reach is the
-- relation of all sequences of operations.
--
-- Actions. Types and Rows hold the action tables; Attempts, Transitions and Acknowledgements
-- have the operations of store.ts on actions; Readiness is actionReadiness and Scheduler
-- #consider and the deadlines of #schedule, of actions/agent-action-scheduler.ts. Once, Safe,
-- Ends, Begins, Moves, Reach, Settles and Replays prove properties; Reach is the relation of all
-- sequences of operations on the tables.
--
-- Screen. Stabilizer is providers/provider-observation-stabilizer.ts: `observe_screen` is observe of
-- ProviderScreenStabilizer, and Dirty has ProviderDirtySequence. Paced proves
-- properties.
--
-- Messages. Types and Audiences hold the records of messages and who may send to whom; Causation is
-- #deriveMessageCausation of store.ts, with the walk up a causal chain on fuel (one more than there
-- are messages, which walk_ends shows to be enough); Store has the writes of submitMessage and
-- clearMessageHistory and the pruning of old messages, and Operations the two operations under
-- their idempotency keys. Walks, Recipients, Submits, Distinct, Stored, Sends, Keyed, Rising, Sequences, Held and Once
-- prove properties. The messages that Delivery takes from are these, cut to what it reads.
--
-- Requests. Keys is the table http_idempotency_keys of store.ts with executeHttpIdempotency, for any
-- operation on any other tables. Keeps, Once and Settled prove properties.
--
-- Topology. Entries has the ordering of groups and agents (topology-order-service.ts and
-- membership-order.ts), and Service the commands of TopologyOrderService as functions of the
-- configuration. Sorting, Records, Picks, Reads, Lookups, Places, Idles and Reparents
-- prove properties.
--
-- Reporters. Types, Waits, Sessions and Ingestion are the tables reporter_sessions,
-- runtime_observations, reporter_rejections, status_revisions and open_waits with the operations of
-- store.ts on them (Waits is #applyOpenWaitReporterEvent): a reporter
-- registers, its process is bound, its lease is refreshed, its authority is revoked, and its events
-- are checked and handed to the reducer of Status. Steps and Changes have runs of operations and what
-- they keep; Fences, Owners, Sequences, Opens and Handshakes prove properties. The runs
-- of foremen, and the answers to open waits, are not modelled.
--
-- The parts meet in values: the status of a run decides what Actions may type (StatusDetail), an
-- automated write of an action or a delivery makes the terminal's input automated (Arbiter), and a
-- run that ends or is replaced ends its actions (replace_runs, end_run).
--
-- Numbers are natural numbers: times are milliseconds since the epoch, and counters do not come
-- near the precision of a double. Only the walk up a causal chain runs on fuel; every other loop
-- runs over a list. New ids (randomUUID) and the time are arguments; that a new id is none of those in use is a hypothesis
-- where it matters. An operation that throws inside a transaction leaves the tables as they
-- were.
--
-- Not modelled: the write into the terminal between the two halves of a delivery or an action
-- (its outcome is an argument), timers and promises, the parsing of requests, events sent to
-- clients, and the daemon's other services. Records leave out fields that no modelled operation
-- reads.
pub mod Prelude
pub mod Status
pub mod Delivery
pub mod Terminal
pub mod Actions
pub mod Screen
pub mod Requests
pub mod Topology
pub mod Messages
pub mod Reporters
