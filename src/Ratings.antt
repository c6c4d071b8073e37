-- ===== src/Ratings.antt =====
-- The ratings app (ratings/services.py): one rating for each customer and business, and the average
-- that is computed anew at every write.
pub mod Services
pub mod Latest
pub mod Aggregates
mod Tests
