-- ===== src/Dashboard.antt =====
-- ui-dashboard: the hooks, components and pages of the dashboard.
pub mod View
pub mod Socket
pub mod Heatmap
pub mod Cards
pub mod Overview
pub mod Theme
pub mod Filters
pub mod Throttle
pub mod Debounce
pub mod Audit
pub mod Anomalies
pub mod Manager
pub mod Modal
pub mod Fetch
mod Tests
