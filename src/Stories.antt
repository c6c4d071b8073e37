-- ===== src/Stories.antt =====
-- The stories app: stories that are public for a day, their views, and the sweep.
pub mod Services
pub mod Day
mod Tests
