-- ===== src/Host.antt =====
-- app/host: the plugin host.
pub mod PluginLock
pub mod HostFiles
pub mod LockCommands
pub mod LockRegistry
pub mod Tests
mod RegistryTests
pub mod Yaml
pub mod YamlPaths
pub mod YamlDefaults
pub mod ConfigEntry
pub mod ConfigFiles
pub mod ConfigChanges
pub mod YamlEnv
mod ConfigTests
pub mod ConfigSync
