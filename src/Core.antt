-- ===== src/Core.antt =====
-- core/: the runtime of the bot, one child for each part of the package.
pub mod Errors
pub mod Message
pub mod Event
pub mod Match
pub mod Context
pub mod Runtime
pub mod Rules
pub mod Router
pub mod Observer
pub mod Dispatch
pub mod Adapter
pub mod Lifecycle
pub mod KeyedLocks
pub mod Task
pub mod Store
pub mod FileStore
pub mod Middleware
pub mod Tests
pub mod StoreTests
pub mod RunTests
mod LockTests
mod RuleTests
