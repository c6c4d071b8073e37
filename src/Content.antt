-- ===== src/Content.antt =====
-- The content app: reels and their transcoding.
pub mod Reels
pub mod Tasks
mod Tests
