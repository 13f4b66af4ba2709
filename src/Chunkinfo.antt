-- ===== src/Chunkinfo.antt =====
-- pkg/chunkinfo: which nodes are asked what chunks they hold.
pub mod Queue
pub mod Timeout
