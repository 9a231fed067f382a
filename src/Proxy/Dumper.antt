-- ===== src/Proxy/Dumper.antt =====
-- src/proxy/dumper.rs: a recorded flow written to a pcap file as a TCP conversation.
pub mod Start
pub mod Packet
pub mod Conversation
pub mod Transcript
pub mod Segments
pub mod Pieces
pub mod Files
pub mod Payloads
pub mod Messages
pub mod Rotation
pub mod Slices
pub mod Course
