-- ===== src/Actions.antt =====
-- packages/db/src/action-execution.ts and the handlers of apps/api/src/server.ts on actions of agents.
pub mod Policies
pub mod Requests
pub mod Handlers
pub mod Execute
pub mod Deciding
pub mod Final
mod Tests
