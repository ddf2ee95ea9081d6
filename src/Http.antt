-- ===== src/Http.antt =====
-- src/http.rs: the responses, the two gates, the path from a handle to a plaintext, the handlers.
pub mod Response
pub mod Gates
pub mod Fetch
pub mod FetchLaws
pub mod Answered
pub mod Served
pub mod Refine
pub mod Promise
pub mod Decision
pub mod Agree
pub mod Bodies
pub mod Handlers
pub mod HandlerLaws
pub mod AgreeHandlers
pub mod Polls
pub mod Wire
pub mod Tests
