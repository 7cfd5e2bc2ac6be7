-- ===== src/Wiring.antt =====
-- agent_runtime/wiring.py: which specs can be built, and of which components.
pub mod Tables
pub mod Guards
pub mod Targets
pub mod Select
pub mod Reports
pub mod Adapted
pub mod Kept
pub mod Granted
pub mod Buildable
pub mod Covered
pub mod Contacts
pub mod Dialled
pub mod Aimed
pub mod Admits
pub mod Tabled
pub mod Flags
pub mod Declared
pub mod Listed
pub mod Registered
pub mod Selected
mod Tests
mod DialTests
pub mod Runs
