-- ===== src/Social.antt =====
-- The social app (social/): follows, likes, saves, comments and shares, with their counters.
pub mod Records
pub mod Responses
pub mod Follows
pub mod Targets
pub mod Marks
pub mod Comments
pub mod Counted
pub mod Toggles
mod Tests
