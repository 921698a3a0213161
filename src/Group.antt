-- ===== src/Group.antt =====
-- The parts of include/GaspiCxx/group and src/group.
pub mod Rank
pub mod Ring
pub mod Members
mod Tests
