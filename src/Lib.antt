-- ===== src/Lib.antt =====
-- ForgetBase, a knowledge base that a team hosts itself: a model of parts of its TypeScript code, with
-- what makes them correct.
--
-- The program is a server (apps/api, apps/worker, apps/web) over packages that each keep one concern.
-- Modelled are
--   * the outbox of asset changes (packages/db/src/asset-change-outbox.ts, the in-memory repository):
--     workers claim entries under a lease, and complete them or report a failure. Outbox has the
--     operations under the source's names, Outbox/Leases what a claim leaves behind, and
--     Outbox/Exclusive, Outbox/Fencing, Outbox/Bounds, Outbox/Retry and Outbox/Report its contract;
--   * the updater (packages/updater/src), which replaces a managed installation by a signed release:
--     Updater/Types and Updater/Schema are the data of packages/schema/src/index.ts and its checks,
--     Updater/Store is store.ts, Updater/Semver is the versions of manifest.ts (their order in Updater/Semver/Order
--     and their identifiers in Updater/Semver/Labels) and Updater/Semver/Upgrades
--     its upgrade rules, Updater/Env the executor and the services that manager.ts is given and the
--     effects of its methods, Updater/Approval is approval.ts, and Updater/Preflight, Updater/Requests,
--     Updater/Jobs and Updater/Execution are the parts of manager.ts that check a release, settle the
--     jobs at a restart, change a job and run an update or a rollback.
--     Jobs, recovery points and approvals are records of a ledger file and of the host's files (`Vault`),
--     which are written once;
--   * the validation of content (packages/validation/src/index.ts), before assets are stored or
--     published: Validation/Dates is the dates without a time, Validation/Navigation the parents and the
--     cycles of the reader's tree, Validation/Redaction the redaction of texts, and Validation/Report
--     the checks of a collection and its report;
--   * the local sync of a device (packages/local-sync/src/index.ts): LocalSync/Canonical is canonicalJson,
--     LocalSync/SourceRef the form of source references, LocalSync/Create and LocalSync/Verify make and
--     check a signed manifest with its pages of records, and LocalSync/Tokens is the requests and codes
--     by which a device is authorized;
--   * the actions of agents: Actions/Policies is the policy of a tenant and its evaluation, Actions/Requests
--     the in-memory repository of packages/db/src/action-execution.ts, and Actions/Handlers the handlers of
--     apps/api/src/server.ts that request and decide actions, which read and write the repository;
--     Actions/Execute and Actions/Deciding are about one run of a handler each, Actions/Final about their
--     sequences;
--   * the cache of managed queries' answers (packages/db/src/managed-query-cache.ts, the in-memory repository):
--     QueryCache has its operations, QueryCache/Keys the keys of its map, QueryCache/Abstract an abstract cache
--     that QueryCache/Views and QueryCache/Refines compare with it, and QueryCache/Purging is about the purge and
--     the expiry.
-- Prelude has the shared tests, lists, texts and results.
--
-- Effects. `Run` is a function of the system's state (the ledger, the installed identity, the local
-- variables of a run with the calls it has made, and a world that nothing is known of) to a result or
-- an error message and the next state; what is written before an error stays written. Each call of the
-- executor, each read and each replacement of the ledger's file may fail, and a replacement may fail
-- after the file has been replaced; so a theorem on every `Env` holds for every pattern of failures.
-- A run is considered alone: other requests' writes to the ledger between its steps are not modelled.
-- A process that dies between two steps is not modelled; what a restart does with the ledger that it
-- finds is (Updater/Requests).
--
-- Fuel. `prune` (the `while` loop of `write`) has one more unit of fuel than there are jobs, and each
-- round removes a job. `walk` (from an asset to its parents) has two more than there are assets, for the ids
-- of its path differ and all but the last are ids of assets; `chunks_from` has as many as there are
-- records, for each chunk takes one; `carry` (the days that run over a month's end) has four, for a
-- month has 28 days at least and a day has two digits; `decimal` has one more than its number;
-- `exponent_from` has 971, for a number below 2 ^ 1024 is below 2 ^ 53 after as many halvings.
--
-- Parameters. SHA-256 digests, the length of JSON texts, `randomUUID`, `localeCompare`,
-- `JSON.stringify` and the executor of packages/updater/src/executor.ts are arguments; the hypotheses
-- on them are named where they are used (`IsLocaleOrder`: a strict order that tells texts of letters, digits, dots and dashes
-- apart; distinct results of `randomUUID`). Date-times are numbers of milliseconds. Messages of errors are kept where the code
-- stores them, but for those that a schema's check makes. Regular expressions and the schema's verdict on a
-- record are arguments of the validation, as is the local calendar of Date; hashes, signatures and encodings
-- are those of `SyncHost` and `TokenHost`. An action's redaction and the checks of a caller's scopes are
-- arguments, and each handler reads the clock once.
--
-- Not modelled are SQL, Docker and file access, the user interface, and HTTP but for the answers of the two
-- handlers of actions; of the packages above, the audit events of the handlers, the expiry of approvals by
-- the worker, createLocalSyncRecord, the PKCE pair and the Ed25519 signer; and the other packages.
pub mod Prelude
pub mod Actions
pub mod LocalSync
pub mod Outbox
pub mod QueryCache
pub mod Updater
pub mod Validation
