-- ===== src/Dns.antt =====
-- src/apps/RSDNSServer.cpp: the messages of the DNS service.
pub mod Message
pub mod Query
pub mod Answer
pub mod Pending
