-- ===== src/Moderation.antt =====
-- The moderation subsystem (moderation/): the queue, the decisions and the alerts.
pub mod Records
pub mod Signals
pub mod Services
pub mod Sla
mod Tests
