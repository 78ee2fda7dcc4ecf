-- ===== src/Extract.antt =====
-- The bounded resources of the web extraction service, scholight/web_extract.
pub mod Gate
pub mod Budget
pub mod Cursor
pub mod Cache
pub mod Spool
pub mod Guard
