-- ===== src/Updater.antt =====
-- packages/updater: the managed updater. Types and schemas, semantic versions, release manifests, the
-- ledger's store, the host's approval authority, and the manager with its runs.
pub mod Types
pub mod Schema
pub mod Semver
pub mod Store
pub mod Env
pub mod Approval
pub mod Jobs
pub mod Requests
pub mod Execution
pub mod Preflight
mod Tests
