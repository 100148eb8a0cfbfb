-- ===== src/Lib.antt =====
-- Verification library of the Nehemiah control plane.
--
-- The control plane (apps/nehemiah/src) places machines on hosts, bills them and admits the requests
-- that reach it. Requests pass the admission of bodies and of credentials, create and extend machines
-- through the repository, and reserve hosts through the scheduler, which asks the billing policy
-- before it commits to anything. PostgreSQL is the state that the parts share.
--
-- - Base: shared names, tests on native numbers and text, results and transactions, tables of rows,
--   integers, the numbers of JavaScript, and rows with identifiers.
-- - Database: the row types, from db/schema.ts and the columns that the modelled statements name.
--   `transaction` (Base/Outcome) is `Database.transaction` of db/client.ts.
-- - Scheduler: Capacity is scheduler/capacity.ts, Placement is scheduler/placement.ts (`chooseHost`);
--   Quota and Reserve are scheduler/scheduler.ts (`enforceQuota`, `reserve`, `release`).
-- - Billing: Rates is billing/rates.ts; Price and Admission are billing/admission.ts (`decimal`,
--   `ceilingPrice`, `BillingAdmissionPolicy`).
-- - Machines: domain/machines.ts, the repository's `claimCreate`, `releaseCreateClaim`, `failCreate`,
--   `assign`, `observeHost` and `transition`; Extension has `beginExtend` and `completeExtend`,
--   Failure has `failureForCreateError`, Service has `destroy` and the first checks of `create`.
-- - Streams: domain/stream-admission.ts, `acquire` and `release`; Requests has the constructor,
--   `admitRouteRequest` and `reapExpired`.
-- - Metering: billing/metering.ts. Split is `splitRuntimeAtUtcMidnight`, Anomaly the checks on an
--   observation, Projection `appendProjection` and `closeLegacyPrefix`, Processing
--   `processObservation`, Validation `validateObservation`, Drain the loop in `ingest` over the
--   observations that are stored, Receipts and Ingest the rest of `ingest`, HostLoss `closeHostLoss`.
--   Its tables (Metering/Tables) are not those of Database, since it reads other columns.
-- - Devices: auth/device.ts. Attempts has the rate limits, Issue is `issue` and `inspect`, Approval
--   `authorize`, Exchange `exchange`, Refresh `refresh` and `revoke`, Access `authenticateAccess`.
--   What each reads before its transaction comes from tables of its own, since other transactions may
--   come between.
-- - Capabilities: auth/capability.ts, with the signatures of the library jose as a parameter.
-- - Windows: the statement on fixed windows that auth/api-admission.ts and
--   domain/stream-admission.ts share.
-- - ApiAdmission: auth/api-admission.ts, `preAuthenticate` and `authenticate`, and the public prefix
--   of auth/api-key.ts.
-- - HostAdmission: auth/host-admission.ts, `verify` split at its `await`.
-- - RequestBodies: http/incoming-request.ts, pending bodies and the lengths of bodies.
-- - Fixtures and the modules named Tests: concrete rows and runs.
--
-- A statement of SQL is a function on lists of rows, NULL is `none`, and a transaction that throws
-- leaves the tables as they were. A uuid that a column returns is in lower case, and the uuids that
-- `ingest` and `acquire` are given are brought to lower case where they pass them to a statement.
-- Times are natural numbers, microseconds where a statement compares them. Numbers are unbounded:
-- those of JavaScript are checked to be safe integers before they are used, and the columns of
-- PostgreSQL refuse what overflows them, which is modelled for the process_id of an observation, the
-- one that passes the checks of the code too large for its column; the sequences of meters are taken
-- to stay below the largest bigint. Loops are structural recursion but for two of the metering, on
-- fuel: a runtime is split in at most two segments more than it has days, and observations are
-- processed at most once for each that is stored, so that this much fuel and one more is enough. Metering has milliseconds, as a date of
-- JavaScript has, and its dates and the midnights after them come before the last one of JavaScript.
-- Clocks, the parser of dates, random identifiers, hashes, the collation of the
-- runtime and of the database, and the rows that other transactions lock are parameters.
--
-- Not modelled: forks of machines and what `create` does after its checks, usage export, volumes,
-- templates, identities, how user codes are drawn and normalised, the background cleanup of device
-- authorization, routing, the background jobs, the web dashboard, the host software and the
-- deployment. The queries of the billing admission are not modelled either: what they return is the
-- record `Ledger`. The coarse address of a client is an argument of `pre_authenticate`, and the
-- normalised user code one of `authorize`. An identifier in a token is compared as a text: PostgreSQL
-- also finds one in capital letters, which then fails by its hash. The columns `updated_at` are left
-- out, since nothing that is modelled reads them. Of the rows that other code writes to
-- usage_events only their keys matter.
pub mod Base
pub mod Scheduler
pub mod Billing
pub mod Database
pub mod Devices
pub mod Capabilities
mod Fixtures
pub mod Streams
pub mod Windows
pub mod Machines
pub mod RequestBodies
pub mod ApiAdmission
pub mod HostAdmission
pub mod Metering
