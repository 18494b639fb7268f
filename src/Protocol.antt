-- ===== src/Protocol.antt =====
-- The wire protocol: src/protocol/packet_codec.cpp and src/protocol/gameplay_payload.cpp with their
-- headers in include/mcrs/protocol.
pub mod Bytes
pub mod Packet
pub mod Gameplay
pub mod Messages
mod Tests
