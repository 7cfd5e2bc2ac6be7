-- ===== src/Channel.antt =====
-- agent_runtime/components/channel_lifecycle.py: the bounded set of recently seen ids, by which a
-- channel recognizes a redelivery, and the delivery of replies in the background.
pub mod Seen
pub mod Window
pub mod Reply
mod Once
mod Told
mod Sources
mod Tests
mod ReplyTests
