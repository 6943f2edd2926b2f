-- ===== src/Runtime.antt =====
-- The modules of pkg/runtime: work queues, the client that remembers writes, shared handlers.
pub mod Keys
pub mod ResourceVersion
pub mod Cached
pub mod Controller
pub mod SharedHandler
pub mod Transaction
pub mod SharedController
mod Tests
