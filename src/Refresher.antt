-- ===== src/Refresher.antt =====
-- server/src/http/refresher: which tokens Edge fetches features with, and what it does with upstream's answers.
pub mod State
pub mod Fetch
pub mod Serve
pub mod Engines
pub mod Answers
pub mod Coverage
pub mod Decisions
pub mod Streaming
pub mod Opened
