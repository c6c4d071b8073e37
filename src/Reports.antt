-- ===== src/Reports.antt =====
-- The reports app (reports/): reports of content, and the hiding of reported comments.
pub mod Services
pub mod Hidden
mod Tests
