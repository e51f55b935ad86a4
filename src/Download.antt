-- ===== src/Download.antt =====
-- The download page: website/src/components/useOsDetection.ts and DownloadSection.tsx.
pub mod Detection
pub mod Choice
pub mod Steps
pub mod Sizes
pub mod Grid
pub mod Page
