-- ===== src/Spec.antt =====
-- keep_spec/models.py: the sections of a spec, and the validators that pydantic runs on them.
pub mod Intake
pub mod State
pub mod Tools
pub mod Providers
pub mod Sections
pub mod Check
pub mod Validate
pub mod Priced
pub mod Accepted
pub mod Sound
pub mod Configured
pub mod Consistent
pub mod Qualified
pub mod Sample
mod Tests
