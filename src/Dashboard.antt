-- ===== src/Dashboard.antt =====
-- website/src/lib/dashboard and website/src/components/dashboard: the operator dashboard.
pub mod Types
pub mod Privacy
pub mod Live
pub mod Panels
pub mod Map
pub mod Filters
pub mod Session
pub mod Fetch
