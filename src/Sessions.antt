-- ===== src/Sessions.antt =====
-- agent_runtime/sessions.py with its two managers, single_session.py and sqlite_persistence.py.
pub mod Keys
mod Isolation
pub mod Store
pub mod Durable
pub mod Refine
mod Tests
