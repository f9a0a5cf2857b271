-- ===== src/Soar.antt =====
-- soar-service: security playbooks, their validation, execution and audit.
pub mod Playbook
pub mod Actions
pub mod Steps
pub mod Engine
pub mod Backoff
pub mod Emitter
pub mod Mapper
pub mod Cli
pub mod Config
mod Tests
