-- ===== src/Network.antt =====
-- The network layer, src/network and include/mcrs/network.
pub mod ReceiveBuffer
pub mod OutboundQueue
pub mod Session
pub mod EventEncoder
pub mod Registry
pub mod Server
mod Tests
