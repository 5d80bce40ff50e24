-- ===== src/Commands.antt =====
-- cmd: the terminal interface of cmd/phantom and the set-up of cmd/agent.
pub mod Console
pub mod Keys
pub mod Agents
pub mod Sending
pub mod Settings
pub mod Menus
pub mod Setup
