-- ===== src/Executor.antt =====
-- agent_runtime/executor.py: the tool executor. `ToolExecutor`'s fields are the record `Executor`,
-- its methods return the new state beside the result or the exception. A tool's `run` works on a
-- state `W` of the world outside the runtime, of which nothing is known.
pub mod Types
pub mod Calls
pub mod Decide
pub mod Audited
pub mod Gate
pub mod Resolve
pub mod Invariant
pub mod History
pub mod Once
pub mod Visible
pub mod Build
pub mod Bound
pub mod Leaks
pub mod Routes
pub mod Endpoint
mod Tests
mod BootTests
