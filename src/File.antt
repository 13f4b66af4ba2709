-- ===== src/File.antt =====
-- pkg/file: the pipeline that divides a file into chunks.
pub mod Feeder
