-- ===== src/Runtime.antt =====
-- The dashboard of the local runtime: website/src/components/dashboard/RuntimeDashboard.tsx and
-- EventTimeline.tsx and DebugPanel.tsx.
pub mod Events
pub mod Proxy
pub mod Dashboard
pub mod Debug
