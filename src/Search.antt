-- ===== src/Search.antt =====
-- The search over businesses and products, search/.
pub mod Cursor
pub mod Filters
pub mod Services
pub mod Results
pub mod Views
pub mod Wire
pub mod Exact
pub mod Walk
mod Tests
