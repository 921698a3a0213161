-- ===== src/Segment.antt =====
-- The parts of include/GaspiCxx/segment and src/segment.
pub mod Blocks
pub mod MemoryManager
pub mod NotificationManager
pub mod SegmentManager
pub mod Pool
mod Tests
