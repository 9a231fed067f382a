-- ===== src/History.antt =====
-- src/flow/history.rs: what the proxy records of a raw and of an HTTP flow.
pub mod Raw
pub mod Http
