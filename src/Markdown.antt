-- ===== src/Markdown.antt =====
-- website/src/lib/docs/markdown.tsx: the renderer of the documentation and blog pages.
pub mod Lines
pub mod Inline
pub mod Href
pub mod Blocks
