-- ===== src/Sdk.antt =====
-- sdk: what plugins are written against.
pub mod Access
pub mod PluginId
pub mod Registry
pub mod Sessions
pub mod State
pub mod Dialogue
pub mod Tests
mod StateTests
pub mod ConfigPath
