-- ===== src/Control.antt =====
-- packages/control-plane/src/index.ts: replies, queries and pages.
pub mod Paging
pub mod Replies
pub mod Counting
pub mod Queries
pub mod Answers
pub mod Isolation
pub mod Authorize
pub mod Creation
pub mod Refusals
