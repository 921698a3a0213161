-- ===== src/Collectives.antt =====
-- The parts of include/GaspiCxx/collectives and src/collectives.
pub mod LowLevel
pub mod AllreduceRing
pub mod AllgathervRing
pub mod BroadcastSendToAll
mod Tests
