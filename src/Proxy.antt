-- ===== src/Proxy.antt =====
-- src/proxy/: the flows between a client and the service.
pub mod Link
pub mod Raw
pub mod Hyper
pub mod Dumper
pub mod Recorded
pub mod Documents
pub mod Archive
pub mod Start
pub mod Accept
