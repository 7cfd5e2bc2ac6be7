-- ===== src/Cron.antt =====
-- keep_spec/cron.py: the five-field schedules of a spec's triggers. Expressions are ASCII.
pub mod Parse
mod Admits
mod Schedule
mod Tests
