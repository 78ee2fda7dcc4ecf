-- ===== src/Store.antt =====
-- The vector store layer (scholight/store).
pub mod Slices
pub mod Concurrent
