-- ===== src/Lib.antt =====
-- The control plane of ThisM: how its server tells the agents on its nodes to update themselves,
-- so that each command is executed at most once, in order, over crashes, restored databases and
-- broken connections. The agent keeps a durable record of its commands; the server keeps a stream
-- of sequences for each node, with the state of every command; the hub holds the agents'
-- connections. A command of a job gets the next sequence of its node's stream (Store.Jobs), goes
-- out over the node's current connection (Hub.Connections), is admitted by the agent
-- (Agent.Admission), runs (Agent.Executor, Agent.Tasks), and its reports change the server's
-- tables (Store.Transitions). At each connection a handshake makes both sides agree on stream and
-- watermark (Agent.Handshake, Store.Streams, Store.Backfill).
--
-- Base: shared names, lists, tests, tables as association lists, and the text functions of Go.
-- Models: the protocol values of internal/models/types.go.
--
-- Agent, from internal/collector/agent_state.go and parts of internal/collector/collector.go:
-- State is the state, its window of records and its file (commandDedupKey, appendRecord,
-- findRecord, saveAgentState); Recover is loadAgentState and recoverInProgressState; Admission is
-- beginUpdateTask; Tasks is updateTaskProgress, finishUpdateTask, markCommitPoint, cancelTask,
-- abortUpdateTask and handleCancelRequest; Handshake is handshakePayload and applyHandshakeAck;
-- Executor is runUpdateTask and dispatchAgentCommand, with selfUpdateFunc as a parameter.
-- SelfUpdate is the function that it stands for, runSelfUpdate, with VerifyBinary of
-- internal/security/release/verify.go; what its libraries, contexts and system calls answer is a
-- record Host. Proofs: Gate, Records, Durability, Commitment and Replacement, about SelfUpdate,
-- and History, which runs the calls in any order, with crashes.
--
-- Store, from internal/store/updates_concurrency.go and the job parts of internal/store/store.go:
-- Tables are the tables as lists of rows; Watermark is retiredWatermarkFrom and
-- advanceRetiredWatermarkTx; Streams is ensureStreamTx, SetNodeControlState and
-- ReconcileCommandStream; Jobs is CreateUpdateJobWithTargets, RecordDelivery and
-- PendingDeliveriesForNode; Aggregate is aggregateUpdateJobStatus; Transitions is
-- ApplyExecutionTransition and CreateCancelTombstone; Backfill is ApplyHandshakeBackfill;
-- Disposition is ResolveUnknownTarget and MarkStalledUpdateObservations; Retention is
-- PruneUpdateDetail. Proofs: Contiguous, Execution, Onward, Reconcile, Calls and History; Audit,
-- JobStatus, Deliveries and Rebinding, on single operations.
--
-- Hub, from internal/hub/hub.go: Connections is the state with the methods of Hub, Loop is the
-- cases of Run and Close. Steps are all their interleavings. Proofs: Fencing and Races.
--
-- Alerting, from internal/alerting, internal/models/notifications.go and the alert tables of
-- internal/store/store.go: Settings is the notification settings with
-- normalizeNotificationSettings; Deliveries is the tables (ShouldSendAlert to
-- ResetRecoveryState); Evaluator is alerting.go (Process, ProcessHeartbeat and what they call);
-- Dispatcher is dispatcher.go, the bounded queue between a connection and its evaluator, with its
-- counters, drop alerts and Close; Worker is its goroutine run. Connection is the two heartbeats
-- that handleAgentWS enqueues. Fifo is the queue that a dispatcher implements, as a step
-- relation, with the refinement; Accounting runs any calls on a dispatcher; Spacing runs any
-- samples; Recovery is about one turn of the recovery loop.
--
-- Api, from internal/api/api.go: Server is deliverTargets and resendPendingDeliveries over the
-- store and the hub; Handlers is handleCreateAgentUpdateJob, handleGetAgentUpdateJob,
-- handleCancelAgentUpdateJob and handleResolveUnknownAgentUpdate; Agent is
-- handleAgentCommandStatus, handleAgentHandshake and the read loop of handleAgentWS. Other
-- goroutines may run before each call of the store and the hub in a delivery (Gap). Proofs:
-- Delivery and Sending, on redelivery, Isolation and Reports, on reports, Creation and Offline.
--
-- Auth, from internal/api/api.go and the session table of internal/store/store.go: Limiter is
-- loginAttemptLimiter with handlePasswordLogin around the check of the password; Sessions is
-- sessionManager and the calls of the table (CreateAdminSession to CleanupExpiredAdminSessions);
-- Passwords is internal/security/password.go with AuthenticatePassword, ChangePassword,
-- UpsertAdminAuth and handleChangePassword. Limiter and Sessions run by sections: a section under
-- a mutex is one step, and so is a statement of the table, which may fail. Proofs: Recency counts
-- the failures of a key and Forgotten is about the sections of sessions; Lockout runs any
-- requests in any order of their sections, Revocation any sections of the calls on the sessions,
-- with restarts; Renewal is about a changed password.
--
-- Tests holds runs at concrete inputs.
--
-- What the models fix. An int64 is a natural number: sequences, watermarks and times are never
-- negative here, and no code compares a negative number otherwise than 0. Sums are not bounded: a
-- counter that starts at 1 and grows by 1 for a command does not reach 2 ^ 63. Every loop is
-- structural recursion on a list, but for the worker of a dispatcher, whose fuel is the number of
-- its turns: one more than there are jobs in the queue is enough once the dispatcher is closed. A
-- uint64 wraps at 2 ^ 64. A call reads the clock once, and the time is an argument. A formatted
-- text is a list of its pieces. ToLower, EqualFold and TrimSpace are over ASCII. A transaction
-- commits or is rolled back whole; the only errors of the database that are modelled are violated
-- keys. The state file reads as the state that was written, or is missing, unreadable or
-- corrupted; a save is its five system calls on the file and the temporary file, and may fail at
-- each (SaveFault). A section under a mutex is one step. A channel of the hub holds what waits to
-- be sent to it too, which only adds interleavings; time is in seconds, but in nanoseconds in the
-- limiter of logins and the dispatcher.
--
-- Not modelled: the other endpoints of the dashboard; the texts and the HTTP calls of
-- notifications; metrics, GeoIP and the other settings of the store; the commands and the user
-- interface. The bound of 5 seconds on the wait in the Close of a dispatcher and the texts of log
-- lines are left out.
pub mod Base
pub mod Models
pub mod Agent
pub mod Store
pub mod Hub
pub mod Alerting
pub mod Api
pub mod Auth
pub mod Tests
