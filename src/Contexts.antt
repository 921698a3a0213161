-- ===== src/Contexts.antt =====
-- src/RoundRobinQueuesContext.cpp, src/SingleQueueContext.cpp and src/CommunicationContext.cpp: writes and
-- notifications posted to queues.
pub mod Gaspi
pub mod RoundRobin
pub mod SingleQueue
pub mod Notifications
pub mod Posting
mod Tests
