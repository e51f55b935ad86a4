-- ===== src/Releases.antt =====
-- website/src/lib/releases/local.ts: the release artifacts under public/downloads.
pub mod Names
pub mod Listing
pub mod Footer
