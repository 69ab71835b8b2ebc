-- ===== src/Lib.antt =====
-- Verification of the borg MCP client: models of its core logic, translated from the TypeScript
-- sources under src/, and theorems about them.
--
-- The human representative (src/representative-core.ts, src/representative-store.ts,
-- src/representative-delivery-store.ts) sends requests to one Coordinator and reads the replies.
-- - Representative/Ledger.antt models the request ledger: the records, `pruneSettled`, and the
--   transactions of `sendOnce` that reserve, settle and release a request id. A transaction is a
--   function on the stored records, which it leaves as they were where the source throws.
--   Ledger/Trace.antt runs sequences of transactions, the interleavings of overlapping calls.
-- - Representative/Send.antt models `sendOnce` from the reservation on and
--   `classifyAppendFailure`. A call carries what the live check and the append answered, and the
--   transactions that other calls commit during these two waits.
-- - Representative/Binding.antt models who may speak to whom: `assertRepresentativeRole`,
--   `resolveCoordinator` and `verifyLiveBinding`, the check before every effect.
-- - Representative/Point.antt and Representative/Delivery.antt model the order of the log and the
--   delivery row of one binding generation: `scanStart`, `write`, `widenReadWindow`,
--   `advanceCheckpoint`, and the last transaction of `deliverRepresentativeReplies`.
--   Representative/Start.antt models `ensureDeliveryState`, which gives a generation its row.
-- - Representative/Read.antt models `readRepresentativeReplies`, whose window the delivery row
--   records, and `serverHead`.
-- - Representative/Push.antt models the push engine of src/representative-push.ts, which decides
--   which replies wake the host and when: the wake document with its rows and the scheduler step
--   `tick`; in Push/Timer.antt `nextDueAt`, in Push/Ack.antt `ack` and the summary.
--   Push/Discovery.antt has the transaction with its recovery of invalid state and the merge of a
--   page, Push/Engine.antt the operations over the tables: a scan and the capture of the startup
--   cohort. Push/Trace.antt runs sequences of transitions, in the order in which their
--   transactions commit; the deletion of rows by a delivery is one of them. The floor of a merge
--   is that of Representative/Delivery.antt, its entries those of Representative/Read.antt.
--
-- The other parts stand on their own.
-- - Lifecycle.antt: which announcements are suppressed (src/lifecycle-log-guard.ts).
-- - Args/Loop.antt, Args/Assimilate, Args/Quickstart, Args/Clone and Args/LaunchAll: the argument
--   parsers (src/parse-assimilate-args.ts, src/parse-quickstart-args.ts, src/parse-clone-args.ts,
--   src/parse-launch-all-args.ts). Args/Names.antt: src/name-validator.ts.
-- - Roles/Slug.antt and Roles/Pick.antt: src/role-resolver.ts; Roles/Cube.antt: src/cube-name.ts;
--   Roles/Tools.antt: src/tool-scope.ts.
-- - Audit.antt: the scan of a transcript (src/log-audit-core.ts).
-- - Cursor.antt: the stored read positions (src/local-server-cursor.ts), in the order of
--   Representative/Point.antt, with both calls of the continuation guard.
-- - Wake.antt: the health of a wake path (src/wake-path-health.ts and `codexWakePathHealthy` of
--   src/codex-app-wake.ts). Wake/Bridge.antt models how Codex is woken (src/codex-app-wake.ts):
--   the attempt for one entry, in Bridge/Drain.antt the retry drain, in Bridge/Heartbeat.antt the
--   heartbeat; Wake/Thread.antt which thread is woken (src/codex-wake-resolve.ts). The state of
--   the bridge is what the health of Wake.antt reads. The calls of an attempt answer what the
--   model is given, or throw; the other paths act where the source waits.
-- Prelude and Text hold what they share: Boolean tests, lists, results, and strings.
--
-- How the code is represented. A string is the list of its UTF-16 code units (Text.antt); the
-- order of strings in the database is taken to be that of the code units, as for the ASCII stamps
-- and ids that it holds. Thrown errors are values. Time stamps, random ids and the answers of the
-- server are arguments. A new request id is assumed not to occur in the ledger where a theorem
-- says so, which `randomUUID` provides. The number of pages of a scan is bounded by an argument; a
-- theorem shows that a bound above the number of entries left is enough. The size of a serialized
-- result is an argument, so that what is shown of it holds for every measure. In the push engine
-- an instant is its number of milliseconds; the requests of a scan are bounded by fuel, and the
-- attempts of the retry drain by `WAKE_RETRY_MAX_ATTEMPTS` or what a test sets.
--
-- Not modelled: guidance texts and warnings, abort signals, the JSON of the wake state and of
-- acks, the single flight of discovery, the queue in front of the wakes of Codex and the choice of
-- its socket, file locks and file systems, the database itself, validation and formatting of a
-- sent message, network clients and streams, the commands, installers and the tool server.
pub mod Prelude
pub mod Text
pub mod Representative
pub mod Lifecycle
pub mod Args
pub mod Roles
pub mod Audit
pub mod Cursor
pub mod Wake
