-- ===== src/Gateway.antt =====
-- agent_runtime/gateway.py: who may talk to the agent.
pub mod Principals
pub mod Gate
pub mod Admission
mod Tests
