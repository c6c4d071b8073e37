-- ===== src/Notifications.antt =====
-- The notifications app (notifications/): the requests, the wording, the dispatch and the push.
pub mod Records
pub mod Messages
pub mod Services
pub mod Tasks
mod Tests
