-- ===== src/Lib.antt =====
-- CairnOps: the incident cycle of a self-hosted operations console, and the rules around it.
--
-- Observations of native controls and signals of connectors become evidence. Evidence holds impacts up,
-- one for each target of an incident; the impacts and an instant decide an incident's status,
-- severity and propagation. The program keeps all of it in PostgreSQL: each operation is a
-- transaction of SQL statements composed in Go.
--
-- The parts, with the files that model them:
-- - internal/domain: Domain/Trigger (trigger.go: when a run of observations concludes), Domain/Measure
--   (measure.go: availability and latency of a window), Domain/Latency (latency.go: thresholds and
--   anomalies), Domain/Source (monitoring.go: acceptable sources).
-- - internal/alerttext/catalog.go: AlertText (kinds, bounded facts, the kind that facts share).
-- - internal/health/health.go: Health (freshness, the state of a resource, the overall state).
-- - internal/incidents: Incidents/Schema (the rows and the facts), Incidents/Rows (statements that
--   several functions share), Incidents/Presentation (presentation.go), Incidents/Acknowledgement,
--   Incidents/Recompute, Incidents/Propagation, Incidents/Resumption, Incidents/Ensure,
--   Incidents/Apply and Incidents/Snapshot (cycle.go: acknowledgeFromEvidence and
--   recomputeAcknowledgement; recomputeImpact, recomputeIncident and advanceDueIncidents;
--   evidenceWindow and extendPropagation; resumeRecentIncident; ensureImpact;
--   applyEvidenceFact; ApplyEvidenceSnapshot, ResolveEvidence and Advance), Incidents/Native
--   (native.go), Incidents/Store (store.go and the service in incidents.go), Incidents/Owned
--   (structure.go and ResolveForArchivedTarget), Incidents/Merge and Incidents/Reassign
--   (structure.go: MergeTargets and ReassignSource), Incidents/Signals (the adapters ReconcileZabbix,
--   ReconcileUptimeKuma, ReconcilePatchMon, ReconcileArgus and ApplyWebhook, with their inputs),
--   Incidents/Pages (resolved_page.go: the pages of a search, whose filters are a parameter;
--   Incidents/Pages/Cursor the options and the cursor).
-- - internal/realtime: Realtime/Table (realtime.go: the queries on the events), Realtime/Hub (hub.go:
--   options, subscriptions, broadcast, catchUp and shutdown; Realtime/Hub/Delay the retries,
--   Realtime/Hub/System the steps of the hub, its readers and the writers, in any order).
-- - internal/identity: Identity/Schema (the rows), Identity/Input (what a request may carry),
--   Identity/Accounts (accounts.go), Identity/Sessions (identity.go), Identity/Passwords
--   (password_reset.go); Identity/Administrators and Identity/Revocation hold the proofs.
-- - internal/versions/versions.go: Versions (Assess and the parts of a version), Versions/Parse (the formats),
--   Versions/Order (Compare).
-- - internal/pushrelay/limiter.go: Limiter (the rate limiter and the map that it prunes).
-- - internal/maintenance: Maintenance/Calendar (what recurrence.go uses of package time, on days),
--   Maintenance/Recurrence (recurrence.go: localTime and occurrences), Maintenance/Input
--   (maintenance.go: what Create checks), Maintenance/Store (store.go: the rows and their reading),
--   Maintenance/Create and Maintenance/Changes (Create; Cancel, CancelSeries, Extend and List);
--   Maintenance/Overlap, Maintenance/Shown and Maintenance/Retries hold the proofs.
-- - Common holds the shared helpers, Tests the runs at concrete inputs.
--
-- How state and operations correspond. A value of Tables is what one transaction sees: its clock
-- `now()`, a source of fresh ids, and a list of rows for each table. A statement is a function on that
-- value: `select`, `find?`, `exists` and `count_where` for a query, `update_where` for an update, an append
-- for an insert. A Go function that may fail returns a Result, whose constructors are the sentinel errors
-- and `failed` for any other, and an error stands for the rollback. Snapshots call facts, facts call
-- ensureImpact, and all of them call the recomputations, as in the source.
--
-- A value of the hub is what its lock guards, with the channel of each subscription and what its reader
-- took from it; a step is one critical section, one commit or one receive. An account's request is a function on
-- the users and the sessions; the race of two of them is stated on what each transaction reads.
--
-- A request on the maintenance windows is a function on their tables that returns the tables after it and
-- its result, and Reach is any sequence of requests, of changes of the targets and of waits. A time there
-- is a number of microseconds since the year 0, and a zone is the offset that it has at each instant.
--
-- Bounds. catch_up and all_pages take fuel, one unit for each batch or page, and theorems give enough; the
-- loop over the weeks of a series has a round for each day to its last day, which is more than it uses, since
-- it stops by its own test, and occurrences_complete says that no week is missed; the search for the year of a day has the 400 years of a cycle; every
-- other loop goes over a list. Durations are int64 with the wrap-around
-- written out (Common/Int); counts and instants are natural numbers. Texts are native strings, or lists of runes
-- where their length is stated; a uuid is a number, 0 for the empty string.
--
-- Not modelled: the advisory and row locks, which order whole transactions, but for the due incidents that
-- SKIP LOCKED passes over (Tables.locked_elsewhere); the lock of mutateAccount on the target's row, so that
-- the race of two requests is stated for two targets; a receive from a channel while a broadcast is
-- under way; the refusal of an empty connector id by the cast to uuid; the CHECK constraints on texts and
-- on the count of impacts; the JSON metadata, which no
-- decision reads; the order in which Go iterates a map; failures of the database itself; the reads that
-- return incidents; the deletion of old events by the retention; the
-- sequence numbers of PostgreSQL, which a commit may take in another order than its own; argon2, SHA-256 and base64,
-- which are parameters, and the text of a stored password; the table of time zones, a parameter
-- too; the nanoseconds of a window's times beyond the microsecond, which the database does not keep.
pub mod Common
pub mod AlertText
pub mod Domain
pub mod Health
pub mod Identity
pub mod Incidents
pub mod Limiter
pub mod Maintenance
pub mod Realtime
pub mod Versions
mod Tests
