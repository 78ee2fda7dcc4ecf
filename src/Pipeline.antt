-- ===== src/Pipeline.antt =====
-- The text pipeline (scholight/pipeline).
pub mod Chunker
