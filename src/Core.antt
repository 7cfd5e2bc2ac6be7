-- ===== src/Core.antt =====
-- agent_runtime/core.py: the model call and the tool loop of a turn. The audit sink and the world
-- outside are one object each that the core shares with its executor: they stand in the core's state
-- and are lent to the executor for a call.
pub mod Model
pub mod Loop
pub mod Turn
pub mod Rounds
pub mod Trigger
pub mod Reason
pub mod Handle
pub mod Keeps
pub mod Handled
pub mod Ensures
pub mod Commands
pub mod Managers
pub mod Conversation
mod Tests
mod HandleTests
