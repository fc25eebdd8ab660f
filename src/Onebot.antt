-- ===== src/Onebot.antt =====
-- adapters/onebot11: the OneBot v11 adapter.
pub mod Message
pub mod Cq
pub mod Tests
pub mod Socket
pub mod Client
pub mod Event
