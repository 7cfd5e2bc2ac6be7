-- ===== src/Prompt.antt =====
-- agent_runtime/components/prompt_assembler.py: the prompt that a model call gets, untrusted content
-- fenced in it.
pub mod Defang
mod Fence
mod Markers
pub mod Assemble
mod Window
mod Tests
