-- ===== src/Router.antt =====
-- The modules of pkg/router: from a changed object to its handlers, and back to who depends on it.
pub mod Request
pub mod Matcher
pub mod Triggers
pub mod State
pub mod Watching
pub mod Response
pub mod Handler
pub mod Handlers
pub mod Client
pub mod Finalizer
pub mod Route
pub mod Save
pub mod Backoff
pub mod Keys
pub mod HandlerSet
mod Tests
