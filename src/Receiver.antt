-- ===== src/Receiver.antt =====
-- agent_runtime/components/http_receiver.py: the bounded HTTP receiver under the channel components.
pub mod Request
pub mod Lengths
mod Bounds
pub mod Connection
mod Ceiling
mod Tests
