-- ===== src/Chat.antt =====
-- The conversations between two accounts and their messages, chat/.
pub mod Records
pub mod Start
pub mod Paired
pub mod Started
pub mod Messages
pub mod Forward
pub mod Runs
mod Tests
