-- ===== src/Egress.antt =====
-- packages/keep_spec/src/keep_spec/egress.py (the allowlist matcher) and
-- packages/keep_egress/src/keep_egress (records.py, proxy.py): the observed outbound choke point.
pub mod Text
pub mod Match
pub mod Rules
pub mod Proxy
pub mod Audit
pub mod Slots
pub mod HeadText
pub mod Head
mod Target
mod HeadTests
mod Tests
